-- ===== src/HashMap/Separate.antt =====
-- Chains that have nothing in common, and what an appended cell leaves of that.
use vt_mechanisms.Prelude.{
  ℕ, ◌≡◌, refl, ◌∙◌, sym, ◌≢◌, Bool, true, false, ◌||◌, Bool-cases, inl, inr, ◌==◌, ==→eq, [], ◌⊎◌,
  ◌∷◌, ◌++◌, none, arith, if◌then◌else◌,
}
use vt_mechanisms.Heap.{Ptr, Heap}
use vt_mechanisms.LinkedList.Linked.{Cells, has, has-append}
use vt_mechanisms.HashMap.{HashmapElem}
use vt_mechanisms.HashMap.Chain.{Away}

-- an item of the chain is at the address
abbrev pub holds : Ptr → Cells → Bool
holds a [] = false
holds a ((p, v) ∷ xs) = (v == a) || holds a xs

-- no two nodes of the chain have the same item
abbrev pub Distinct : Cells → Type 0
Distinct [] = Unit
Distinct ((p, v) ∷ xs) = Away v xs × Distinct xs

-- Different chains have neither a node nor an item in common, and one chain no item twice.
pub record Separate (cells : ℕ → Cells) : Type 0 where
  pub nodes : (i j : ℕ) (a : Ptr) → i ≢ j → has a (cells i) ≡ true → has a (cells j) ≡ false
  pub items : (i j : ℕ) (a : Ptr) → i ≢ j → holds a (cells i) ≡ true → holds a (cells j) ≡ false
  pub distinct : (i : ℕ) → Distinct (cells i)

pub Away-holds : (a : Ptr) (xs : Cells) → Away a xs → holds a xs ≡ false
Away-holds a [] away = refl
Away-holds a ((p, v) ∷ xs) away = ground (arith, Away-holds a xs away.1, away.0)

-- the nodes of the chains are in the heap
abbrev pub Held : Heap HashmapElem → (ℕ → Cells) → Type 0
Held h cells = (j : ℕ) (a : Ptr) → has a (cells j) ≡ true → h.nodes a ≢ none

holds-append : (a : Ptr) (xs ys : Cells) → holds a (xs ++ ys) ≡ (holds a xs || holds a ys)
holds-append a [] ys = refl
holds-append a ((p, v) ∷ xs) ys = ground (arith, holds-append a xs ys)

Away-append : (a : Ptr) (xs : Cells) (p v : Ptr) → Away a xs → v ≢ a → Away a (xs ++ (p, v) ∷ [])
Away-append a [] p v away ne = (ne, tt)
Away-append a ((q, w) ∷ xs) p v away ne = (away.0, Away-append a xs p v away.1 ne)

Distinct-append :
    (xs : Cells) (p v : Ptr) → Distinct xs → holds v xs ≡ false → Distinct (xs ++ (p, v) ∷ [])
Distinct-append [] p v dis out = (tt, tt)
Distinct-append ((q, w) ∷ xs) p v dis out = (
  Away-append w xs p v dis.0 (λ e. ground (arith, e, out)),
  Distinct-append xs p v dis.1 (ground (arith, out)),
)

-- the chains with one more cell at the end of one
abbrev pub with_cell : (ℕ → Cells) → (i : ℕ) → (node item : Ptr) → ℕ → Cells
with_cell cells i node item j = if j == i then cells i ++ (node, item) ∷ [] else cells j

module _ (cells : ℕ → Cells) (i : ℕ) (node item : Ptr) where
  pub has-with_cell :
      (j : ℕ) (a : Ptr)
      → has a (with_cell cells i node item j) ≡ true
      → (has a (cells j) ≡ true) ⊎ (j ≡ i) × (a ≡ node)
  has-with_cell j a h = elim (Bool-cases (j == i)) [
    | inl own ↦
        let ji = ==→eq j i own in
        let h' = rw own at h in
        elim (Bool-cases (has a (cells i))) [
          | inl old ↦ inl (rw ji old)
          | inr out ↦ inr (ji, ground (arith, has-append a (cells i) ((node, item) ∷ []), out, h'))
        ]
    | inr other ↦ inl (rw other at h)
  ]

  holds-with_cell :
      (j : ℕ) (a : Ptr)
      → holds a (with_cell cells i node item j) ≡ true
      → (holds a (cells j) ≡ true) ⊎ (j ≡ i) × (a ≡ item)
  holds-with_cell j a h = elim (Bool-cases (j == i)) [
    | inl own ↦
        let ji = ==→eq j i own in
        let h' = rw own at h in
        elim (Bool-cases (holds a (cells i))) [
          | inl old ↦ inl (rw ji old)
          | inr out ↦
              inr (ji, ground (arith, holds-append a (cells i) ((node, item) ∷ []), out, h'))
        ]
    | inr other ↦ inl (rw other at h)
  ]

  -- an address that only the new cell brings in is in one chain
  in_one :
      (f : Ptr → Cells → Bool) (new : Ptr) (j k : ℕ) (a : Ptr)
      → j ≢ k
      → (f a (cells j) ≡ true → f a (cells k) ≡ false)
      → ((n : ℕ) → f new (cells n) ≡ false)
      → (f a (cells j) ≡ true) ⊎ (j ≡ i) × (a ≡ new)
      → (f a (cells k) ≡ true) ⊎ (k ≡ i) × (a ≡ new)
      → ⊥
  in_one f new j k a ne old none_new (inl hj) (inl hk) = let out = old hj in cc
  in_one f new j k a ne old none_new (inl hj) (inr (ek, ea)) =
      let out = none_new j in let here = rw ea at hj in cc
  in_one f new j k a ne old none_new (inr (ej, ea)) (inl hk) =
      let out = none_new k in let here = rw ea at hk in cc
  in_one f new j k a ne old none_new (inr (ej, ea)) (inr (ek, _)) = ne (ej ∙ sym ek)

  module _ (s : Separate cells) (no_node : (j : ℕ) → has node (cells j) ≡ false)
      (no_item : (j : ℕ) → holds item (cells j) ≡ false) where
    -- A cell with a node and an item that no chain has keeps the chains apart.
    pub with_cell-Separate : Separate (with_cell cells i node item)
    with_cell-Separate = record {
      nodes = λ j k a ne h. elim (Bool-cases (has a (with_cell cells i node item k))) [
        | inr out ↦ out
        | inl inside ↦ absurd (
            in_one has node j k a ne (s.nodes j k a ne) no_node (has-with_cell j a h)
              (has-with_cell k a inside))
      ];
      items = λ j k a ne h. elim (Bool-cases (holds a (with_cell cells i node item k))) [
        | inr out ↦ out
        | inl inside ↦ absurd (
            in_one holds item j k a ne (s.items j k a ne) no_item (holds-with_cell j a h)
              (holds-with_cell k a inside))
      ];
      distinct = λ j. elim (Bool-cases (j == i)) [
        | inl own ↦ rw own (Distinct-append (cells i) node item (s.distinct i) (no_item i))
        | inr other ↦ rw other (s.distinct j)
      ];
    }
