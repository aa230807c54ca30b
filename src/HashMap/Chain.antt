-- ===== src/HashMap/Chain.antt =====
-- The walks through one chain of the table, and a change of one element.
use vt_mechanisms.Prelude.{
  ℕ, zero, suc, ◌<◌, ◌≡◌, refl, sym, ◌∙◌, ◌≢◌, Bool, true, false, Bool-cases, inl, inr, ◌==◌,
  if◌then◌else◌, [], ◌∷◌, Option, none, some, length, ℤ, ◌==ℤ◌, arith,
}
use vt_mechanisms.Heap.{Ptr, null, Heap, Run, ok, write}
use vt_mechanisms.Heap.Access.{load-ok, load_item-ok, store_item-ok, free_item-ok}
use vt_mechanisms.LinkedList.Linked.{Cells, first, Linked}
use vt_mechanisms.HashMap.{HashmapElem, get_loop, put_loop}

abbrev pub Items : Type 0
Items = Ptr → Option HashmapElem

-- the first element of a chain with the key, with its address
abbrev pub find : Items → ℤ → Cells → Option (Ptr × HashmapElem)
find f key [] = none
find f key ((p, v) ∷ xs) = elim (f v) [
  | none ↦ find f key xs
  | some e ↦ if e.key_val ==ℤ key then some (v, e) else find f key xs
]

abbrev pub value_of : Option (Ptr × HashmapElem) → Ptr
value_of none = null
value_of (some (v, e)) = e.value

-- each item of the chain is a live element with the property
abbrev pub Live : (HashmapElem → Type 0) → Items → Cells → Type 0
Live P f [] = Unit
Live P f ((p, v) ∷ xs) = ((e : HashmapElem) × (f v ≡ some e) × P e) × (v ≢ null) × Live P f xs

-- no item of the chain is at the address
abbrev pub Away : Ptr → Cells → Type 0
Away a [] = Unit
Away a ((p, v) ∷ xs) = (v ≢ a) × Away a xs

pub find-here :
    (f : Items) (key : ℤ) (p v : Ptr) (xs : Cells) (e : HashmapElem)
    → f v ≡ some e
    → (e.key_val ==ℤ key) ≡ true
    → find f key ((p, v) ∷ xs) ≡ some (v, e)
find-here f key p v xs e at same = rw (at, find) (rw same refl)

pub find-next :
    (f : Items) (key : ℤ) (p v : Ptr) (xs : Cells) (e : HashmapElem)
    → f v ≡ some e
    → (e.key_val ==ℤ key) ≡ false
    → find f key ((p, v) ∷ xs) ≡ find f key xs
find-next f key p v xs e at other = rw (at, find) (rw other refl)

pub ==ℤ→eq : (a b : ℤ) → (a ==ℤ b) ≡ true → a ≡ b
==ℤ→eq a b e = ground arith

module _ (P : HashmapElem → Type 0) (h : Heap HashmapElem) (key : ℤ) where
  pub get_loop-find :
      (k : ℕ) (before : Ptr) (xs : Cells)
      → Linked h.nodes before xs null
      → Live P h.items xs
      → length xs < k
      → get_loop k key (first xs null) h ≡ ok (value_of (find h.items key xs)) h
  unfolding get_loop
  get_loop-find zero before xs l live fuel = absurd (omega arith)
  get_loop-find (suc k) before [] l live fuel = refl
  get_loop-find (suc k) before ((p, v) ∷ xs) l ((e, ev, pe), nv, live) fuel =
      let node_p : (p == null) ≡ false = ground (arith, l.1) in
      let item_v : (v == null) ≡ false = ground (arith, nv) in
      elim (Bool-cases (e.key_val ==ℤ key)) [
        | inl same ↦ rw (
          node_p,
          load-ok h p _ l.0 l.1,
          item_v,
          load_item-ok h v ev nv,
          same,
          find-here h.items key p v xs e ev same,
        )
        | inr other ↦
            rw
              (
                node_p,
                load-ok h p _ l.0 l.1,
                item_v,
                load_item-ok h v ev nv,
                other,
                find-next h.items key p v xs e ev other,
              )
              (get_loop-find k p xs l.3 live (omega arith))
      ]

  -- what the walk of `hmap_put_abs` leaves
  abbrev pub put_found : (value new_elem : Ptr) → Option (Ptr × HashmapElem) → Run HashmapElem Bool
  put_found value new_elem none = ok false h
  put_found value new_elem (some (v, e)) = ok true (record h {
    items = write (write h.items v (some (record e { value = value }))) new_elem none;
  })

  pub put_loop-find :
      (value new_elem : Ptr) (fresh : HashmapElem)
      → h.items new_elem ≡ some fresh
      → new_elem ≢ null
      → (k : ℕ) (before : Ptr) (xs : Cells) → Linked h.nodes before xs null
      → Live P h.items xs
      → Away new_elem xs
      → length xs < k
      → put_loop k key value new_elem (first xs null) h
        ≡ put_found value new_elem (find h.items key xs)
  unfolding put_loop
  put_loop-find value new_elem fresh en nn zero before xs l live away fuel = absurd (omega arith)
  put_loop-find value new_elem fresh en nn (suc k) before [] l live away fuel = refl
  put_loop-find value new_elem fresh en nn (suc k) before ((p, v) ∷ xs) l ((e, ev, pe), nv, live)
        away fuel =
      let node_p : (p == null) ≡ false = ground (arith, l.1) in
      let apart : (v == new_elem) ≡ false = ground (arith, away.0) in
      let written : Heap HashmapElem = record h {
        items = write h.items v (some (record e { value = value }));
      } in
      let alive : written.items new_elem ≡ some fresh = rw apart en in
      elim (Bool-cases (e.key_val ==ℤ key)) [
        | inl same ↦ rw (
          node_p,
          load-ok h p _ l.0 l.1,
          load_item-ok h v ev nv,
          same,
          find-here h.items key p v xs e ev same,
          store_item-ok h v ev nv (record e { value = value }),
          free_item-ok written new_elem alive nn,
        )
        | inr other ↦
            rw
              (
                node_p,
                load-ok h p _ l.0 l.1,
                load_item-ok h v ev nv,
                other,
                find-next h.items key p v xs e ev other,
              )
              (put_loop-find value new_elem fresh en nn k p xs l.3 live away.1 (omega arith))
      ]

  -- what a search finds is a live element with the key
  pub find-Live :
      (xs : Cells) (v : Ptr) (e : HashmapElem)
      → Live P h.items xs
      → find h.items key xs ≡ some (v, e)
      → (h.items v ≡ some e) × (v ≢ null) × (e.key_val ≡ key)
  find-Live [] v e live at = cc
  find-Live ((p, w) ∷ xs) v e ((d, dw, pd), nw, live) at = elim (Bool-cases (d.key_val ==ℤ key)) [
    | inl same ↦
        let found : Option.some (w, d) ≡ some (v, e) =
          sym (find-here h.items key p w xs d dw same) ∙ at in
        let wv : w ≡ v = cc in
        let de : d ≡ e = cc in
        (rw (← wv, ← de) dw, rw (← wv) nw, rw (← de) (==ℤ→eq d.key_val key same))
    | inr other ↦ find-Live xs v e live (sym (find-next h.items key p w xs d dw other) ∙ at)
  ]
