-- ===== src/LinkedList/Destroy.antt =====
-- `llist_destroy` of src/routing/utils/linkedlist.c.
use vt_mechanisms.Prelude.{
  ℕ, zero, suc, ◌+◌, ◌<◌, ◌≡◌, refl, ◌∙◌, false, true, none, [], ◌∷◌, arith, length, ltb,
  Bool-cases, inl, inr, ==→eq,
}
use vt_mechanisms.Heap.{Ptr, Heap}
use vt_mechanisms.Heap.Access.{Ends, Ends-and_then, Ends-mono}
use vt_mechanisms.LinkedList.Linked.{Cells, has, IsList, SameOutside}
use vt_mechanisms.LinkedList.RemoveAt.{llist_remove_at_lem}
use vt_mechanisms.LinkedList.Unlink.{IsRemoved}
use vt_mechanisms.LinkedList.{Llist, llist_destroy, destroy_loop}

-- The outcome of emptying a list that held `xs`.
pub record IsDestroyed {V : Type 0} (h : Heap V) (l : Llist V) (xs : Cells) (l' : Llist V)
    (g : Heap V) : Type 0 where
  pub list : IsList g.nodes l' []
  pub checker : l'.equals ≡ l.equals
  pub freed : (a : Ptr) → has a xs ≡ true → g.nodes a ≡ none
  pub same : SameOutside xs h.nodes g.nodes
  pub items : g.items ≡ h.items

module _ {V : Type 0} where
  destroy_loop-IsDestroyed :
      (k : ℕ) (xs : Cells) (h : Heap V) (l : Llist V)
      → IsList h.nodes l xs
      → length xs < k
      → Ends (destroy_loop k l h) (IsDestroyed h l xs)
  unfolding destroy_loop
  destroy_loop-IsDestroyed zero xs h l is fuel = absurd (omega arith)
  destroy_loop-IsDestroyed (suc k) [] h l is fuel =
      let done : ltb 0 l.size ≡ false = ground (arith, is.size) in
      rw done
        (record { list = is; checker = refl; freed = λ a i. cc; same = λ a i. refl; items = refl })
  destroy_loop-IsDestroyed (suc k) ((q, v) ∷ xs) h l is fuel =
      let more : ltb 0 l.size ≡ true = ground (arith, is.size) in
      rw more (
        Ends-and_then _ _ (IsRemoved h l q v xs) (IsDestroyed h l ((q, v) ∷ xs))
          (llist_remove_at_lem h l [] q v xs is)
          λ (_, l') g o.
            Ends-mono _ (IsDestroyed g l' xs) (IsDestroyed h l ((q, v) ∷ xs))
              (destroy_loop-IsDestroyed k xs g l' o.list (omega arith))
              λ l'' f d. record {
                list = d.list;
                checker = d.checker ∙ o.checker;
                freed = λ a i. elim (Bool-cases (has a xs)) [
                  | inl behind ↦ d.freed a behind
                  | inr out ↦ d.same a out ∙ rw (==→eq q a (ground arith)) at o.freed
                ];
                same = λ a i. d.same a (ground arith) ∙ o.same a i;
                items = d.items ∙ o.items;
              })

  -- `llist_destroy` ends with the empty list, has freed every node and neither freed nor changed
  -- an item or a node of another list
  pub llist_destroy_lem :
      (xs : Cells) (h : Heap V) (l : Llist V)
      → IsList h.nodes l xs
      → Ends (llist_destroy l h) (IsDestroyed h l xs)
  unfolding llist_destroy
  llist_destroy_lem xs h l is =
      destroy_loop-IsDestroyed (l.size + 1) xs h l is (omega (arith, is.size))
