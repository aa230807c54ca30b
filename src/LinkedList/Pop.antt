-- ===== src/LinkedList/Pop.antt =====
-- `llist_pop` of src/routing/utils/linkedlist.c.
use vt_mechanisms.Prelude.{◌≡◌, ◌≢◌, ◌<◌, some, [], ◌∷◌, arith}
use vt_mechanisms.Heap.{Ptr, null, Heap, ok, set_prev, free_node}
use vt_mechanisms.Heap.Access.{Ends, Ends-mono}
use vt_mechanisms.LinkedList.Linked
use vt_mechanisms.LinkedList.Linked.{Cells, first, elem, IsList}
use vt_mechanisms.LinkedList.Unlink.{IsRemoved, HeadGone, HeadGone-IsRemoved}
use vt_mechanisms.LinkedList.{Llist, llist_pop}

module _ {V : Type 0} (h : Heap V) (l : Llist V) where
  pop_only :
      (q v : Ptr) → IsList h.nodes l ((q, v) ∷ []) → Ends (llist_pop l h) (IsRemoved h l q v [])
  unfolding llist_pop free_node
  pop_only q v is = ground arith

  pop-HeadGone :
      (q v z w : Ptr) (zs : Cells)
      → 1 < l.size
      → l.head ≡ q
      → h.nodes q ≡ some (elem v z null)
      → h.nodes z ≡ some (elem w (first zs null) q)
      → q ≢ null
      → z ≢ null
      → z ≢ q
      → Ends (llist_pop l h) (HeadGone h l q v z w zs)
  unfolding llist_pop free_node set_prev
  pop-HeadGone q v z w zs size head eq ez qn zn zq = ground arith

  -- `llist_pop` returns the first item and frees its node; the rest stays in order and nothing
  -- else is written
  pub llist_pop_lem :
      (q v : Ptr) (xs : Cells)
      → IsList h.nodes l ((q, v) ∷ xs)
      → Ends (llist_pop l h) (IsRemoved h l q v xs)
  llist_pop_lem q v [] is = pop_only q v is
  llist_pop_lem q v ((z, w) ∷ zs) is =
      let (e, ne, out, (e', ne', _, _)) = is.linked in
      Ends-mono _ (HeadGone h l q v z w zs) _
        (pop-HeadGone q v z w zs (omega (arith, is.size)) is.head e e' ne ne'
          (Linked.ne_first z w zs q out))
        (HeadGone-IsRemoved h l q v z w zs is)

  -- on an empty list it returns NULL and changes nothing
  pub llist_pop-nil : IsList h.nodes l [] → llist_pop l h ≡ ok (null, l) h
  unfolding llist_pop
  llist_pop-nil is = rw is.size
