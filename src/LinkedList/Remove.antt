-- ===== src/LinkedList/Remove.antt =====
-- `llist_remove` and `llist_remove_free` of src/routing/utils/linkedlist.c.
use vt_mechanisms.Prelude.{
  ℕ, zero, suc, ◌+◌, ◌<◌, ◌≡◌, refl, ap, subst, sym, ◌≢◌, true, false, none, some, [], ◌∷◌, ◌++◌,
  arith, ◌==◌, length, ℤ, pos, ◌==ℤ◌,
}
use vt_mechanisms.Heap.{Ptr, null, Heap, ok, write}
use vt_mechanisms.Heap.Access.{Ends, Ends-and_then, load-ok, free_item-ok}
use vt_mechanisms.LinkedList.Linked.{Cells, first, Linked, IsList, SameOutside}
use vt_mechanisms.LinkedList.RemoveAt.{llist_remove_at_lem}
use vt_mechanisms.LinkedList.Unlink.{IsRemoved}
use vt_mechanisms.LinkedList.Walk.{Compares}
use vt_mechanisms.LinkedList.{
  Llist, llist_remove, llist_remove_free, remove_loop, elem_not_found, success,
}

-- by the results `r` the checker calls no item of the list equal
abbrev pub Differs : (Ptr → ℤ) → Cells → Type 0
Differs r [] = Unit
Differs r ((p, v) ∷ xs) = ((r v ==ℤ pos 0) ≡ false) × Differs r xs

-- The outcome of removing the node `q` and freeing its item `v`, which leaves the list `xs`.
pub record IsFreed {V : Type 0} (h : Heap V) (l : Llist V) (q v : Ptr) (xs : Cells)
    (r : ℤ × Llist V) (g : Heap V) : Type 0 where
  pub result : r.0 ≡ success
  pub list : IsList g.nodes r.1 xs
  pub checker : r.1.equals ≡ l.equals
  pub freed : g.nodes q ≡ none
  pub same : SameOutside ((q, v) ∷ xs) h.nodes g.nodes
  pub items : g.items ≡ write h.items v none

module _ {V : Type 0} (h : Heap V) (l : Llist V) (r : Ptr → ℤ) (item : Ptr) where
  remove_loop-missing :
      (k i before : ℕ) (xs : Cells)
      → Linked h.nodes before xs null
      → Compares h l.equals r item xs
      → Differs r xs
      → length xs < k
      → remove_loop l item k i (first xs null) h ≡ ok (elem_not_found, l) h
  unfolding remove_loop
  remove_loop-missing zero i before xs c s d fuel = absurd (omega arith)
  remove_loop-missing (suc k) i before [] c s d fuel = refl
  remove_loop-missing (suc k) i before ((p, v) ∷ xs) c s d fuel =
      let none_p : (p == null) ≡ false = ground (arith, c.1) in
      rw (none_p, load-ok h p _ c.0 c.1, s.0, d.0)
        (remove_loop-missing k (i + 1) p xs c.3 s.1 d.1 (omega arith))

  -- when the checker calls no item equal, `llist_remove` says so and changes nothing
  pub llist_remove-missing :
      (xs : Cells)
      → IsList h.nodes l xs
      → Compares h l.equals r item xs
      → Differs r xs
      → llist_remove l item h ≡ ok (elem_not_found, l) h
  unfolding llist_remove
  llist_remove-missing xs is s d =
      subst (λ p. remove_loop l item (l.size + 1) 0 p h ≡ ok (elem_not_found, l) h) (sym is.head)
        (remove_loop-missing (l.size + 1) 0 null xs is.linked s d (omega (arith, is.size)))

  module _ (ys : Cells) (q v : Ptr) (zs : Cells) (is : IsList h.nodes l (ys ++ (q, v) ∷ zs))
      (found : (r v ==ℤ pos 0) ≡ true) {x : V} (alive : h.items v ≡ some x) (nv : v ≢ null) where
    remove_loop-IsFreed :
        (k i before : ℕ) (us : Cells)
        → Linked h.nodes before (us ++ (q, v) ∷ zs) null
        → Compares h l.equals r item (us ++ (q, v) ∷ zs)
        → Differs r us
        → length (us ++ (q, v) ∷ zs) < k
        → i + length us ≡ length ys
        → Ends
            (remove_loop l item k i (first (us ++ (q, v) ∷ zs) null) h)
            (IsFreed h l q v (ys ++ zs))
    unfolding remove_loop
    remove_loop-IsFreed zero i before us c s d fuel e = absurd (omega arith)
    remove_loop-IsFreed (suc k) i before [] c s d fuel e =
        let none_q : (q == null) ≡ false = ground (arith, c.1) in
        let at : i ≡ length ys = omega arith in
        rw (none_q, load-ok h q _ c.0 c.1, s.0, found, at)
          (Ends-and_then _ _ (IsRemoved h l q v (ys ++ zs)) _ (llist_remove_at_lem h l ys q v zs is)
            λ (_, l') g o.
              let alive' : g.items v ≡ some x = rw o.items alive in
              rw (free_item-ok g v alive' nv) (record {
                result = refl;
                list = o.list;
                checker = o.checker;
                freed = o.freed;
                same = o.same;
                items = ap (λ f. write f v none) o.items;
              }))
    remove_loop-IsFreed (suc k) i before ((p, u) ∷ us) c s d fuel e =
        let none_p : (p == null) ≡ false = ground (arith, c.1) in
        rw (none_p, load-ok h p _ c.0 c.1, s.0, d.0)
          (remove_loop-IsFreed k (i + 1) p us c.3 s.1 d.1 (omega arith) (omega arith))

    -- `llist_remove` takes out the node of the first item that the checker calls equal, frees the
    -- node and the item, and leaves the rest of the list and of the heap as it was
    pub llist_remove_lem :
        Compares h l.equals r item (ys ++ (q, v) ∷ zs)
        → Differs r ys
        → Ends (llist_remove l item h) (IsFreed h l q v (ys ++ zs))
    unfolding llist_remove
    llist_remove_lem s d =
        subst (λ p. Ends (remove_loop l item (l.size + 1) 0 p h) (IsFreed h l q v (ys ++ zs)))
          (sym is.head)
          (remove_loop-IsFreed (l.size + 1) 0 null ys is.linked s d (omega (arith, is.size))
            (omega arith))

-- `llist_remove_free` and `llist_remove` do the same: both free the item
pub llist_remove_free-eq :
    {V : Type 0} (l : Llist V) (item : Ptr) → llist_remove_free l item ≡ llist_remove l item
unfolding llist_remove_free llist_remove
llist_remove_free-eq l item = refl
