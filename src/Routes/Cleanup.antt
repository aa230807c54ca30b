-- ===== src/Routes/Cleanup.antt =====
-- `cleanup` of src/routing/utils.c on a table.
use vt_mechanisms.Prelude.{
  subst, sym, if◌then◌else◌, ◌≡◌, refl, ◌∙◌, true, false, Bool-cases, inl, inr, ◌==◌, ==→eq, List,
  [], ◌∷◌, none, arith,
}
use vt_mechanisms.Heap.{Ptr, null, Heap, free_item, Cmd, pure, ◌>>◌}
use vt_mechanisms.Heap.Access.{Ends, Ends-and_then, Ends-mono}
use vt_mechanisms.LinkedList.{Llist, llist_pop, llist_destroy}
use vt_mechanisms.LinkedList.Linked.{Cells, has, IsList}
use vt_mechanisms.LinkedList.Unlink.{IsRemoved}
use vt_mechanisms.LinkedList.Destroy.{IsDestroyed, llist_destroy_lem}
use vt_mechanisms.LinkedList.Pop.{llist_pop_lem, llist_pop-nil}
use vt_mechanisms.Routes.{RoutingEntry, cleanup}
use vt_mechanisms.Routes.Lookup.{Entries}

-- The table is empty, its nodes are freed, and every entry is still there.
pub record IsCleaned (h : Heap RoutingEntry) (xs : Cells) (es : List RoutingEntry)
    (l' : Llist RoutingEntry) (g : Heap RoutingEntry) : Type 0 where
  pub list : IsList g.nodes l' []
  pub freed : (a : Ptr) → has a xs ≡ true → g.nodes a ≡ none
  pub entries : Entries g.items xs es
  pub items : g.items ≡ h.items

-- the part of `cleanup` behind `llist_pop`
after_pop : Ptr × Llist RoutingEntry → Cmd RoutingEntry (Llist RoutingEntry)
after_pop r = if r.0 == null then (free_item r.0 >> pure r.1) else llist_destroy r.1

-- `cleanup` on a table ends: the list is empty and all its nodes are freed, but none of its entries
-- is.
pub cleanup_lem :
    (h : Heap RoutingEntry) (l : Llist RoutingEntry) (xs : Cells) (es : List RoutingEntry)
    → IsList h.nodes l xs
    → Entries h.items xs es
    → Ends (cleanup l h) (IsCleaned h xs es)
unfolding free_item cleanup after_pop
cleanup_lem h l [] [] is en =
    rw (llist_pop-nil h l is)
      (record { list = is; freed = λ a i. absurd (cc); entries = tt; items = refl })
cleanup_lem h l [] (e ∷ es) is en = absurd en
cleanup_lem h l (c ∷ xs) [] is en = absurd en
cleanup_lem h l ((q, v) ∷ xs) (e ∷ es) is en =
    Ends-and_then (llist_pop l h) after_pop (IsRemoved h l q v xs)
      (IsCleaned h ((q, v) ∷ xs) (e ∷ es)) (llist_pop_lem h l q v xs is)
      λ r g o.
        let there : (r.0 == null) ≡ false = ground (arith, o.result, en.1) in
        rw there (
          Ends-mono (llist_destroy r.1 g) (IsDestroyed g r.1 xs)
            (IsCleaned h ((q, v) ∷ xs) (e ∷ es)) (llist_destroy_lem xs g r.1 o.list)
            λ l' f d. record {
              list = d.list;
              freed = λ a i. elim (Bool-cases (has a xs)) [
                | inl behind ↦ d.freed a behind
                | inr out ↦ d.same a out ∙ rw (==→eq q a (ground arith)) at o.freed
              ];
              entries =
                  subst (λ items. Entries items ((q, v) ∷ xs) (e ∷ es)) (sym (d.items ∙ o.items))
                    en;
              items = d.items ∙ o.items;
            })
