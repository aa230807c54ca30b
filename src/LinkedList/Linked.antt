-- ===== src/LinkedList/Linked.antt =====
-- What it means that a heap holds a doubly linked list, and how writes change that.
use vt_mechanisms.Prelude.{
  ◌≡◌, refl, ◌≢◌, Bool, true, false, ◌||◌, Option, some, List, [], ◌∷◌, ◌++◌, arith, ◌==◌, length,
  none, Bool-cases, inl, inr,
}
use vt_mechanisms.Heap.{Ptr, null, LlistElem, write}
use vt_mechanisms.LinkedList.{Llist}

-- address and item of each node, in order
abbrev pub Cells : Type 0
Cells = List (Ptr × Ptr)

abbrev pub Nodes : Type 0
Nodes = Ptr → Option LlistElem

abbrev pub has : Ptr → Cells → Bool
has a [] = false
has a ((p, _) ∷ xs) = (p == a) || has a xs

abbrev pub first : Cells → Ptr → Ptr
first [] after = after
first ((p, _) ∷ xs) after = p

abbrev pub last : Ptr → Cells → Ptr
last before [] = before
last before ((p, _) ∷ xs) = last p xs

abbrev pub elem : Ptr → Ptr → Ptr → LlistElem
elem v next prev = record { item = v; next = next; prev = prev }

-- Between the nodes `before` and `after` the distinct nodes `xs` are linked in both directions.
abbrev pub Linked : Nodes → Ptr → Cells → Ptr → Type 0
Linked f before [] after = Unit
Linked f before ((p, v) ∷ xs) after =
    (f p ≡ some (elem v (first xs after) before))
    × (p ≢ null)
    × (has p xs ≡ false)
    × Linked f p xs after

abbrev pub Disjoint : Cells → Cells → Type 0
Disjoint xs ys = (a : Ptr) → has a xs ≡ true → has a ys ≡ false

abbrev pub SameOutside : Cells → Nodes → Nodes → Type 0
SameOutside xs f g = (a : Ptr) → has a xs ≡ false → g a ≡ f a

pub has-append : (a : Ptr) (xs ys : Cells) → has a (xs ++ ys) ≡ (has a xs || has a ys)
has-append a [] ys = refl
has-append a ((p, v) ∷ xs) ys = ground (arith, has-append a xs ys)

pub has-last : (p v : Ptr) (xs : Cells) → has (last p xs) ((p, v) ∷ xs) ≡ true
has-last p v [] = ground arith
has-last p v ((q, w) ∷ xs) = ground (arith, has-last q w xs)

pub frame :
    (f g : Nodes) (before : Ptr) (xs : Cells) (after : Ptr)
    → Linked f before xs after
    → ((a : Ptr) → has a xs ≡ true → g a ≡ f a)
    → Linked g before xs after
frame f g before [] after l same = tt
frame f g before ((p, v) ∷ xs) after (e, ne, out, l) same =
    (ground (arith, same p), ne, out, frame f g p xs after l (λ a i. same a (ground arith)))

pub frame-write :
    (f : Nodes) (a : Ptr) (c : Option LlistElem) (before : Ptr) (xs : Cells) (after : Ptr)
    → Linked f before xs after
    → has a xs ≡ false
    → Linked (write f a c) before xs after
frame-write f a c before xs after l out = frame f _ before xs after l (λ b i. ground arith)

pub ne_of_has : (a p : Ptr) (xs : Cells) → has a xs ≡ true → has p xs ≡ false → a ≢ p
ne_of_has a p xs i out e = let j = rw e at i in cc

-- at an address that a change spares unless it is `t`
pub write_agrees :
    (f g : Nodes) (t : Ptr) (c : Option LlistElem)
    → g t ≡ c
    → (a : Ptr) → (a ≢ t → g a ≡ f a)
    → g a ≡ write f t c a
write_agrees f g t c e a same = ground (arith, same)

pub first-append :
    (xs ys : Cells) (after : Ptr) → first (xs ++ ys) after ≡ first xs (first ys after)
first-append [] ys after = refl
first-append (x ∷ xs) ys after = refl

pub last-append : (before : Ptr) (xs ys : Cells) → last before (xs ++ ys) ≡ last (last before xs) ys
last-append before [] ys = refl
last-append before ((p, v) ∷ xs) ys = last-append p xs ys

pub join :
    (f : Nodes) (before : Ptr) (xs ys : Cells) (after : Ptr)
    → Linked f before xs (first ys after)
    → Linked f (last before xs) ys after
    → Disjoint xs ys
    → Linked f before (xs ++ ys) after
join f before [] ys after l r apart = r
join f before ((p, v) ∷ xs) ys after (e, ne, out, l) r apart = (
  rw (first-append xs ys after) e,
  ne,
  ground (arith, has-append p xs ys, apart p),
  join f p xs ys after l r (λ a i. apart a (ground arith)),
)

pub split :
    (f : Nodes) (before : Ptr) (xs ys : Cells) (after : Ptr)
    → Linked f before (xs ++ ys) after
    → Linked f before xs (first ys after) × Linked f (last before xs) ys after × Disjoint xs ys
split f before [] ys after l = (tt, l, λ a i. ground arith)
split f before ((p, v) ∷ xs) ys after (e, ne, out, l) =
    let (front, back, apart) = split f p xs ys after l in
    (
      (rw (first-append xs ys after) at e, ne, ground (arith, has-append p xs ys), front),
      back,
      λ a i. ground (arith, has-append p xs ys, apart a),
    )

pub not_mem_left :
    (xs : Cells) (q v : Ptr) (ys : Cells) → Disjoint xs ((q, v) ∷ ys) → has q xs ≡ false
not_mem_left xs q v ys apart = elim (Bool-cases (has q xs)) [
  | inl i ↦ let e = apart q i in ground arith
  | inr out ↦ out
]

-- the last node of a list that is not empty, as the heap holds it
abbrev pub last_elem : Ptr → Ptr → Ptr → Cells → Ptr → LlistElem
last_elem before p v [] after = elem v after before
last_elem before p v ((q, w) ∷ xs) after = last_elem p q w xs after

pub last_lem :
    (f : Nodes) (before p v : Ptr) (xs : Cells) (after : Ptr)
    → Linked f before ((p, v) ∷ xs) after
    → (f (last p xs) ≡ some (last_elem before p v xs after)) × (last p xs ≢ null)
last_lem f before p v [] after (e, ne, out, l) = (e, ne)
last_lem f before p v ((q, w) ∷ xs) after (e, ne, out, l) = last_lem f p q w xs after l

pub last-ne : (p q w : Ptr) (xs : Cells) → has p ((q, w) ∷ xs) ≡ false → (last q xs == p) ≡ false
last-ne p q w [] out = ground arith
last-ne p q w ((r, u) ∷ xs) out = last-ne p r u xs (ground arith)

pub last_elem-next :
    (before p v : Ptr) (xs : Cells) (after after' : Ptr)
    → record (last_elem before p v xs after) { next = after' } ≡ last_elem before p v xs after'
last_elem-next before p v [] after after' = refl
last_elem-next before p v ((q, w) ∷ xs) after after' = last_elem-next p q w xs after after'

-- redirecting the last node to another successor
pub relink_last :
    (f : Nodes) (before p v : Ptr) (xs : Cells) (after after' : Ptr)
    → Linked f before ((p, v) ∷ xs) after
    → Linked
        (write f (last p xs) (some (last_elem before p v xs after')))
        before
        ((p, v) ∷ xs)
        after'
relink_last f before p v [] after after' (e, ne, out, l) = (ground arith, ne, out, tt)
relink_last f before p v ((q, w) ∷ xs) after after' (e, ne, out, l) =
    (rw (last-ne p q w xs out) e, ne, out, relink_last f p q w xs after after' l)

-- redirecting the first node to another predecessor
pub relink_first :
    (f : Nodes) (before before' p v : Ptr) (xs : Cells) (after : Ptr)
    → Linked f before ((p, v) ∷ xs) after
    → Linked (write f p (some (elem v (first xs after) before'))) before' ((p, v) ∷ xs) after
relink_first f before before' p v xs after (e, ne, out, l) =
    (ground arith, ne, out, frame-write f p _ p xs after l out)

-- The structure `l` and the nodes `f` hold the list `xs`.
pub record IsList {V : Type 0} (f : Nodes) (l : Llist V) (xs : Cells) : Type 0 where
  pub size : l.size ≡ length xs
  pub head : l.head ≡ first xs null
  pub tail : l.tail ≡ last null xs
  pub linked : Linked f null xs null

pub not-mem_of_none :
    (f : Nodes) (a before : Ptr) (xs : Cells) (after : Ptr)
    → Linked f before xs after
    → f a ≡ none
    → has a xs ≡ false
not-mem_of_none f a before [] after l unused = refl
not-mem_of_none f a before ((p, v) ∷ xs) after (e, ne, out, l) unused =
    ground (arith, not-mem_of_none f a p xs after l unused)

pub ne_last : (p v : Ptr) (xs : Cells) (q : Ptr) → has q ((p, v) ∷ xs) ≡ false → last p xs ≢ q
ne_last p v xs q out e = ground (arith, last-ne q p v xs out)

pub ne_first : (p v : Ptr) (xs : Cells) (q : Ptr) → has q ((p, v) ∷ xs) ≡ false → p ≢ q
ne_first p v xs q out e = ground arith
