-- ===== src/HashMap/Apart.antt =====
-- Addresses that a chain does not hold, the nodes of different chains, and a changed array.
use vt_mechanisms.Prelude.{
  ℕ, zero, suc, ◌≡◌, refl, ap, ◌≢◌, true, Bool-cases, inl, inr, ◌==◌, List, [], ◌∷◌, Option, none,
  some, ℤ, arith, ==→eq, get_elem?, set,
}
use vt_mechanisms.Heap.{Ptr, LlistElem, Heap}
use vt_mechanisms.LinkedList.Linked.{Cells, elem, has, first, Linked}
use vt_mechanisms.HashMap.{HashmapElem}
use vt_mechanisms.HashMap.Chain.{Items, find, value_of, Live, Away}
use vt_mechanisms.HashMap.Map.{in_chain}

pub Live-Away :
    (P : HashmapElem → Type 0) (f : Items) (a : Ptr) (xs : Cells)
    → Live P f xs
    → f a ≡ none
    → Away a xs
Live-Away P f a [] live unused = tt
Live-Away P f a ((p, v) ∷ xs) ((d, at, pd), nv, live) unused =
    (ground arith, Live-Away P f a xs live unused)

pub find-elsewhere :
    (f g : Items) (key : ℤ) (t : Ptr) (xs : Cells)
    → ((a : Ptr) → a ≢ t → g a ≡ f a)
    → Away t xs
    → find g key xs ≡ find f key xs
find-elsewhere f g key t [] same away = refl
find-elsewhere f g key t ((p, v) ∷ xs) same away =
    let here = same v away.0 in let rest = find-elsewhere f g key t xs same away.1 in ground arith

pub in_chain-same :
    (f g : Items) (cells cells' : ℕ → Cells) (key : ℤ) (o : Option ℕ)
    → ((j : ℕ) → value_of (find g key (cells' j)) ≡ value_of (find f key (cells j)))
    → in_chain g cells' key o ≡ in_chain f cells key o
in_chain-same f g cells cells' key none same = refl
in_chain-same f g cells cells' key (some j) same = same j

-- The node of a chain is live and its item is an element with the property.
pub owner :
    (P : HashmapElem → Type 0) (h : Heap HashmapElem) (a before : Ptr) (xs : Cells) (after : Ptr)
    → Linked h.nodes before xs after
    → Live P h.items xs
    → has a xs ≡ true
    → (n : LlistElem) × (e : HashmapElem) × (h.nodes a ≡ some n) × (h.items n.item ≡ some e) × P e
owner P h a before [] after l live i = cc
owner P h a before ((p, v) ∷ xs) after l ((d, at, pd), nv, live) i = elim (Bool-cases (p == a)) [
  | inl is ↦ (elem v (first xs after) before, d, rw (← ==→eq p a is) l.0, at, pd)
  | inr other ↦ owner P h a p xs after l.3 live (ground arith)
]

pub get_elem?-set :
    {A : Type 0} (xs : List A) (i : ℕ) (x y : A)
    → get_elem? xs i ≡ some x
    → get_elem? (set xs i y) i ≡ some y
get_elem?-set [] i x y e = cc
get_elem?-set (z ∷ xs) zero x y e = refl
get_elem?-set (z ∷ xs) (suc i) x y e = get_elem?-set xs i x y e

pub get_elem?-set_other :
    {A : Type 0} (xs : List A) (i j : ℕ) (y : A) → i ≢ j → get_elem? (set xs i y) j ≡ get_elem? xs j
get_elem?-set_other [] i j y ne = refl
get_elem?-set_other (z ∷ xs) zero zero y ne = absurd (ne refl)
get_elem?-set_other (z ∷ xs) zero (suc j) y ne = refl
get_elem?-set_other (z ∷ xs) (suc i) zero y ne = refl
get_elem?-set_other (z ∷ xs) (suc i) (suc j) y ne =
    get_elem?-set_other xs i j y (λ e. ne (ap suc e))
