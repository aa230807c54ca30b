-- ===== src/Tests/Lists.antt =====
-- The list operations on two lists in one heap: 10, 20 and 30 with the items 100, 200 and 300, and
-- an empty one.
use vt_mechanisms.Prelude.{
  ℕ, ◌≡◌, refl, ◌==◌, ◌+◌, if◌then◌else◌, none, some, [], ◌∷◌, arith, ℤ, pos,
}
use vt_mechanisms.Heap.{Ptr, null, Heap, Cmd, ok, pure}
use vt_mechanisms.Heap.Access.{Ends}
use vt_mechanisms.LinkedList.{
  Llist, equals, elem_not_found, llist_append, llist_remove_at, llist_remove, llist_destroy,
}
use vt_mechanisms.LinkedList.Linked.{Cells, elem, IsList}
use vt_mechanisms.LinkedList.Append.{IsAppended, llist_append_lem}
use vt_mechanisms.LinkedList.Unlink.{IsRemoved}
use vt_mechanisms.LinkedList.RemoveAt.{llist_remove_at_lem}
use vt_mechanisms.LinkedList.Remove.{IsFreed, llist_remove-missing, llist_remove_lem}
use vt_mechanisms.LinkedList.Destroy.{IsDestroyed, llist_destroy_lem}

abbrev cells : Cells
cells = (10, 100) ∷ (20, 200) ∷ (30, 300) ∷ []

abbrev heap : Heap ℕ
heap = record {
  nodes = λ p.
      if p == 10
      then some (elem 100 20 0)
      else if p == 20
      then some (elem 200 30 10)
      else if p == 30
      then some (elem 300 0 20)
      else none;
  items = λ p.
      if p == 100 then some 1 else if p == 200 then some 2 else if p == 300 then some 3 else none;
}

abbrev three : Llist ℕ
three = record { size = 3; head = 10; tail = 30; equals = equals }

abbrev empty : Llist ℕ
empty = record { size = 0; head = null; tail = null; equals = equals }

three-IsList : IsList heap.nodes three cells
three-IsList = record {
  size = refl;
  head = refl;
  tail = refl;
  linked = (refl, ground arith, refl, (refl, ground arith, refl, (refl, ground arith, refl, tt)));
}

-- what the checker says of an item against the item 200
abbrev to_200 : Ptr → ℤ
to_200 v = if v == 200 then pos 0 else pos 1

abbrev to_999 : Ptr → ℤ
to_999 v = pos 1

llist_append_example :
    Ends (llist_append 40 (elem 7 7 7) three 400 heap) (IsAppended heap three cells 40 400)
llist_append_example =
    llist_append_lem heap three 40 (elem 7 7 7) 400 cells three-IsList (ground arith) refl

llist_remove_at_example :
    Ends
      (llist_remove_at three (pos 1) heap)
      (IsRemoved heap three 20 200 ((10, 100) ∷ (30, 300) ∷ []))
llist_remove_at_example =
    llist_remove_at_lem heap three ((10, 100) ∷ []) 20 200 ((30, 300) ∷ []) three-IsList

llist_remove-missing_example : llist_remove three 999 heap ≡ ok (elem_not_found, three) heap
unfolding equals
llist_remove-missing_example =
    llist_remove-missing heap three to_999 999 cells three-IsList (refl, (refl, (refl, tt)))
      (refl, (refl, (refl, tt)))

llist_remove_example :
    Ends (llist_remove three 200 heap) (IsFreed heap three 20 200 ((10, 100) ∷ (30, 300) ∷ []))
unfolding equals
llist_remove_example =
    llist_remove_lem heap three to_200 200 ((10, 100) ∷ []) 20 200 ((30, 300) ∷ []) three-IsList
      refl refl (ground arith) (refl, (refl, (refl, tt))) (refl, tt)

-- adds up the items' addresses
abbrev add_up : Ptr → ℕ → Cmd ℕ ℕ
add_up v s = pure (s + v)

llist_destroy_example : Ends (llist_destroy three heap) (IsDestroyed heap three cells)
llist_destroy_example = llist_destroy_lem cells heap three three-IsList
