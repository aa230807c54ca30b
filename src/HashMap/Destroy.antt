-- ===== src/HashMap/Destroy.antt =====
-- `hmap_destroy` of src/routing/utils/hashmap.c.
use vt_mechanisms.Prelude.{
  ℕ, zero, suc, ◌+◌, ◌<◌, ◌≡◌, refl, ◌∙◌, true, false, Bool-cases, inl, inr, ◌==◌, subst, sym, List,
  [], ◌∷◌, none, some, arith, length, get_elem?,
}
use vt_mechanisms.Heap.{Ptr, null, Heap, write}
use vt_mechanisms.Heap.Access.{Ends, Ends-and_then, Ends-mono, load-ok, free_node-ok, free_item-ok}
use vt_mechanisms.LinkedList.{Llist}
use vt_mechanisms.LinkedList.Linked.{Cells, has, first, Linked, IsList, frame, frame-write}
use vt_mechanisms.HashMap.{HashmapElem, Hashmap, destroy_chain, destroy_lists, hmap_destroy}
use vt_mechanisms.HashMap.Chain.{Items, Live}
use vt_mechanisms.HashMap.Map.{IsMap}
use vt_mechanisms.HashMap.Separate.{holds, Away-holds, Distinct, Separate}
use vt_mechanisms.HashMap.Update.{InBucket}

-- From `h` to `g` the nodes and items of the chain were freed, and nothing else changed.
pub record Frees (h g : Heap HashmapElem) (xs : Cells) : Type 0 where
  pub nodes : (a : Ptr) → has a xs ≡ true → g.nodes a ≡ none
  pub items : (a : Ptr) → holds a xs ≡ true → g.items a ≡ none
  pub other_nodes : (a : Ptr) → has a xs ≡ false → g.nodes a ≡ h.nodes a
  pub other_items : (a : Ptr) → holds a xs ≡ false → g.items a ≡ h.items a

Live-kept :
    (P : HashmapElem → Type 0) (f g : Items) (xs : Cells)
    → ((a : Ptr) → holds a xs ≡ true → g a ≡ f a)
    → Live P f xs
    → Live P g xs
Live-kept P f g [] same live = tt
Live-kept P f g ((p, v) ∷ xs) same ((d, at, pd), nv, live) = (
  (d, same v (ground arith) ∙ at, pd),
  nv,
  Live-kept P f g xs (λ a i. same a (ground arith)) live,
)

-- the heap behind the first node
abbrev without : Heap HashmapElem → Ptr → Ptr → Heap HashmapElem
without h p v = record { nodes = write h.nodes p none; items = write h.items v none }

Frees-cons :
    (h g : Heap HashmapElem) (p v : Ptr) (xs : Cells)
    → has p xs ≡ false
    → holds v xs ≡ false
    → Frees (without h p v) g xs
    → Frees h g ((p, v) ∷ xs)
Frees-cons h g p v xs out away f = record {
  nodes = λ a i. elim (Bool-cases (has a xs)) [
    | inl behind ↦ f.nodes a behind
    | inr apart ↦ f.other_nodes a apart ∙ ground arith
  ];
  items = λ a i. elim (Bool-cases (holds a xs)) [
    | inl behind ↦ f.items a behind
    | inr apart ↦ f.other_items a apart ∙ ground arith
  ];
  other_nodes = λ a i. f.other_nodes a (ground arith) ∙ ground arith;
  other_items = λ a i. f.other_items a (ground arith) ∙ ground arith;
}

module _ (P : HashmapElem → Type 0) where
  destroy_chain-Frees :
      (k : ℕ) (h : Heap HashmapElem) (before : Ptr) (xs : Cells)
      → Linked h.nodes before xs null
      → Live P h.items xs
      → Distinct xs
      → length xs < k
      → Ends (destroy_chain k (first xs null) h) (λ _ g. Frees h g xs)
  unfolding destroy_chain
  destroy_chain-Frees zero h before xs l live dis fuel = absurd (omega arith)
  destroy_chain-Frees (suc k) h before [] l live dis fuel = record {
    nodes = λ a i. cc;
    items = λ a i. cc;
    other_nodes = λ a i. refl;
    other_items = λ a i. refl;
  }
  destroy_chain-Frees (suc k) h before ((p, v) ∷ xs) l live dis fuel =
      let here : (p == null) ≡ false = ground (arith, l.1) in
      let away = Away-holds v xs dis.0 in
      let h' : Heap HashmapElem = record h { items = write h.items v none } in
      rw
        (here, load-ok h p _ l.0 l.1, free_item-ok h v live.0.1 live.1, free_node-ok h' p _ l.0 l.1)
        (Ends-mono _ (λ _ g. Frees (without h p v) g xs) (λ _ g. Frees h g ((p, v) ∷ xs))
          (destroy_chain-Frees k (without h p v) p xs (frame-write h.nodes p none p xs null l.3 l.2)
            (Live-kept P h.items (write h.items v none) xs (λ a i. ground arith) live.2) dis.1
            (omega arith))
          λ _ g f. Frees-cons h g p v xs l.2 away f)

Separate-rest : (cells : ℕ → Cells) → Separate cells → Separate (λ i. cells (suc i))
Separate-rest cells s = record {
  nodes = λ i j a ne. s.nodes (suc i) (suc j) a (λ e. ne (omega arith));
  items = λ i j a ne. s.items (suc i) (suc j) a (λ e. ne (omega arith));
  distinct = λ i. s.distinct (suc i);
}

-- the heap holds a chain for each list of an array
record Chains (P : ℕ → HashmapElem → Type 0) (h : Heap HashmapElem) (ls : List (Llist HashmapElem))
    (cells : ℕ → Cells) : Type 0 where
  list : (i : ℕ) (l : Llist HashmapElem) → get_elem? ls i ≡ some l → IsList h.nodes l (cells i)
  live : (i : ℕ) → Live (P i) h.items (cells i)

-- From `h` to `g` the first `n` chains were freed, and nothing else changed.
pub record FreesAll (h g : Heap HashmapElem) (cells : ℕ → Cells) (n : ℕ) : Type 0 where
  pub nodes : (i : ℕ) (a : Ptr) → i < n → has a (cells i) ≡ true → g.nodes a ≡ none
  pub items : (i : ℕ) (a : Ptr) → i < n → holds a (cells i) ≡ true → g.items a ≡ none
  pub other_nodes : (a : Ptr) → ((i : ℕ) → i < n → has a (cells i) ≡ false) → g.nodes a ≡ h.nodes a
  pub other_items :
      (a : Ptr) → ((i : ℕ) → i < n → holds a (cells i) ≡ false) → g.items a ≡ h.items a

Chains-rest :
    (P : ℕ → HashmapElem → Type 0) (h g : Heap HashmapElem) (l : Llist HashmapElem)
    (ls : List (Llist HashmapElem)) (cells : ℕ → Cells)
    → Chains P h (l ∷ ls) cells
    → Separate cells
    → Frees h g (cells 0)
    → Chains (λ i. P (suc i)) g ls (λ i. cells (suc i))
Chains-rest P h g l ls cells c s f = record {
  list = λ i l' e.
      let is = c.list (suc i) l' e in
      record {
        size = is.size;
        head = is.head;
        tail = is.tail;
        linked =
            frame h.nodes g.nodes null (cells (suc i)) null is.linked
              λ a i'. f.other_nodes a (s.nodes (suc i) 0 a (λ e. omega arith) i');
      };
  live = λ i.
      Live-kept (P (suc i)) h.items g.items (cells (suc i))
        (λ a i'. f.other_items a (s.items (suc i) 0 a (λ e. omega arith) i')) (c.live (suc i));
}

FreesAll-cons :
    (h g g' : Heap HashmapElem) (cells : ℕ → Cells) (n : ℕ)
    → Separate cells
    → Frees h g (cells 0)
    → FreesAll g g' (λ i. cells (suc i)) n
    → FreesAll h g' cells (suc n)
FreesAll-cons h g g' cells n s f all = record {
  nodes = nodes';
  items = items';
  other_nodes = λ a out.
      all.other_nodes a (λ i lt. out (suc i) (omega arith)) ∙ f.other_nodes a (out 0 (omega arith));
  other_items = λ a out.
      all.other_items a (λ i lt. out (suc i) (omega arith)) ∙ f.other_items a (out 0 (omega arith));
}
  where
    nodes' : (i : ℕ) (a : Ptr) → i < suc n → has a (cells i) ≡ true → g'.nodes a ≡ none
    nodes' zero a lt i =
        all.other_nodes a (λ j _. s.nodes 0 (suc j) a (λ e. omega arith) i) ∙ f.nodes a i
    nodes' (suc j) a lt i = all.nodes j a (omega arith) i

    items' : (i : ℕ) (a : Ptr) → i < suc n → holds a (cells i) ≡ true → g'.items a ≡ none
    items' zero a lt i =
        all.other_items a (λ j _. s.items 0 (suc j) a (λ e. omega arith) i) ∙ f.items a i
    items' (suc j) a lt i = all.items j a (omega arith) i

destroy_lists-FreesAll :
    (P : ℕ → HashmapElem → Type 0) (ls : List (Llist HashmapElem)) (cells : ℕ → Cells)
    (h : Heap HashmapElem)
    → Chains P h ls cells
    → Separate cells
    → Ends (destroy_lists ls h) (λ _ g. FreesAll h g cells (length ls))
unfolding destroy_lists
destroy_lists-FreesAll P [] cells h c s = record {
  nodes = λ i a lt. absurd (omega arith);
  items = λ i a lt. absurd (omega arith);
  other_nodes = λ a out. refl;
  other_items = λ a out. refl;
}
destroy_lists-FreesAll P (l ∷ ls) cells h c s =
    let is = c.list 0 l refl in
    Ends-and_then _ (λ _. destroy_lists ls) (λ _ g. Frees h g (cells 0))
      (λ _ g. FreesAll h g cells (length (l ∷ ls)))
      (subst (λ p. Ends (destroy_chain (l.size + 1) p h) (λ _ g. Frees h g (cells 0))) (sym is.head)
        (destroy_chain-Frees (P 0) (l.size + 1) h null (cells 0) is.linked (c.live 0) (s.distinct 0)
          (omega (arith, is.size))))
      λ _ g f.
        Ends-mono _ (λ _ g'. FreesAll g g' (λ i. cells (suc i)) (length ls)) _
          (destroy_lists-FreesAll (λ i. P (suc i)) ls (λ i. cells (suc i)) g
            (Chains-rest P h g l ls cells c s f) (Separate-rest cells s))
          λ _ g' all. FreesAll-cons h g g' cells (length ls) s f all

-- `hmap_destroy` on a map whose chains have neither a node nor an element in common, and none of
-- which has an element twice, ends without a fault: each node and each element of each bucket is
-- freed, and nothing else is touched.
pub hmap_destroy_lem :
    (h : Heap HashmapElem) (m : Hashmap) (cells : ℕ → Cells)
    → IsMap h m cells
    → Separate cells
    → Ends (hmap_destroy m h) (λ _ g. FreesAll h g cells m.size)
unfolding hmap_destroy
hmap_destroy_lem h m cells is s =
    subst (λ n. Ends (destroy_lists m.head h) (λ _ g. FreesAll h g cells n)) is.full
      (destroy_lists-FreesAll (InBucket m.size) m.head cells h
        (record { list = is.list; live = is.live }) s)
