-- ===== src/LinkedList.antt =====
-- src/routing/utils/linkedlist.c and linkedlist.h: a doubly linked list with a cached length.
-- The `llist` structure itself is a value: an operation returns the structure as it leaves it, and
-- is never called with NULL for it. `size` counts allocated nodes. Each `while (head != NULL)`
-- loop runs on fuel and is given one round more than the list has nodes.
pub mod Linked
pub mod Append
pub mod Unlink
pub mod Walk
pub mod RemoveAt
pub mod Pop
pub mod Requeue
pub mod Remove
pub mod Iterate
pub mod Destroy
use vt_mechanisms.Prelude.{
  ℕ, zero, suc, ◌+◌, ◌-◌, Bool, true, false, ◌||◌, ◌==◌, if◌then◌else◌, ltb, ℤ, pos, negsuc, ◌==ℤ◌,
}
use vt_mechanisms.Heap.{
  Ptr, null, LlistElem, Heap, Cmd, out_of_fuel, pure, ◌>>=◌, ◌>>◌, load, set_item, set_next,
  set_prev, malloc_node, free_node, free_item,
}

abbrev pub out_of_memory_error : ℤ
out_of_memory_error = negsuc 0

abbrev pub elem_not_found : ℤ
elem_not_found = negsuc 1

abbrev pub success : ℤ
success = pos 1

module _ {V : Type 0} where
  -- `int equals(void *, void *)`, the checker that `llist_init` installs
  unfoldable pub equals : Ptr → Ptr → Cmd V ℤ
  equals elem1 elem2 = if elem1 == elem2 then pure (pos 0) else pure (pos 1)

-- struct llist_struct
pub record Llist (V : Type 0) : Type 0 where
  pub size : ℕ
  pub head : Ptr
  pub tail : Ptr
  pub equals : Ptr → Ptr → Cmd V ℤ

module _ {V : Type 0} where
  unfoldable pub llist_init : Llist V
  unfolding equals
  llist_init = record { size = 0; head = null; tail = null; equals = equals }

  unfoldable pub llist_set_equality_checker : Llist V → (Ptr → Ptr → Cmd V ℤ) → Llist V
  llist_set_equality_checker l equality_checker = record l { equals = equality_checker }

  unfoldable pub llist_size : Llist V → ℕ
  llist_size l = l.size

  -- `new_elem` is what `malloc` returns, `junk` what that memory held.
  pub llist_append : (new_elem : Ptr) → LlistElem → Llist V → Ptr → Cmd V (ℤ × Llist V)
  llist_append new_elem junk l item = if new_elem == null then pure (out_of_memory_error, l) else do
    malloc_node new_elem junk
    set_item new_elem item
    if l.head == null
        then (do
          set_next new_elem null
          set_prev new_elem null
          set_next new_elem null
          set_prev new_elem null
          pure (success, record l { size = l.size + 1; head = new_elem; tail = new_elem }))
        else do
          set_next l.tail new_elem
          set_next new_elem null
          set_prev new_elem l.tail
          pure (success, record l { size = l.size + 1; tail = new_elem })

  get_loop : ℕ → ℤ → ℕ → Ptr → Cmd V Ptr
  get_loop zero index i head = λ _. out_of_fuel
  get_loop (suc k) index i head = if head == null then pure null else do
    n ← load head
    if pos i ==ℤ index then pure n.item else get_loop k index (i + 1) n.next

  pub llist_get : Llist V → ℤ → Cmd V Ptr
  unfolding get_loop
  llist_get l index = get_loop (l.size + 1) index 0 l.head

  get_pos_loop : (Ptr → Ptr → Cmd V ℤ) → ℕ → Ptr → ℕ → Ptr → Cmd V ℤ
  get_pos_loop same zero item i head = λ _. out_of_fuel
  get_pos_loop same (suc k) item i head = if head == null then pure elem_not_found else do
    n ← load head
    differ ← same n.item item
    if differ ==ℤ pos 0 then pure (pos i) else get_pos_loop same k item (i + 1) n.next

  pub llist_get_pos : Llist V → Ptr → Cmd V ℤ
  unfolding get_pos_loop
  llist_get_pos l item = get_pos_loop l.equals (l.size + 1) item 0 l.head

  -- The head becomes the tail.
  pub llist_requeue : Llist V → Cmd V (Llist V)
  llist_requeue l = if (l.size == 0) || (l.size == 1) then pure l else do
    n ← load l.head
    set_prev n.next null
    set_next l.tail l.head
    set_prev l.head l.tail
    set_next l.head null
    pure (record l { head = n.next; tail = l.head })

  -- The three ways in which `llist_remove_at` takes the node `head`, loaded as `n`, out.
  unlink_head : Llist V → Ptr → LlistElem → Cmd V (Ptr × Llist V)
  unlink_head l head n =
      if l.size - 1 == 0
      then (do
        free_node head
        pure (n.item, record l { size = l.size - 1; head = null; tail = null }))
      else do
        if n.next == null then pure tt else set_prev n.next null
        n' ← load head
        free_node head
        pure (n.item, record l { size = l.size - 1; head = n'.next })

  unlink_tail : Llist V → Ptr → LlistElem → Cmd V (Ptr × Llist V)
  unlink_tail l head n = do
    t ← load l.tail
    if t.prev == null
        then (do free_node head; pure (n.item, record l { size = 0; head = null; tail = null }))
        else do
          set_next t.prev null
          free_node head
          pure (n.item, record l { size = l.size - 1; tail = t.prev })

  unlink_inner : Llist V → Ptr → LlistElem → Cmd V (Ptr × Llist V)
  unlink_inner l head n = do
    if n.prev == null then pure tt else set_next n.prev n.next
    n' ← load head
    if n'.next == null then pure tt else set_prev n'.next n'.prev
    free_node head
    pure (n.item, record l { size = l.size - 1 })

  pub unlink : Llist V → Ptr → LlistElem → Cmd V (Ptr × Llist V)
  unfolding unlink_head unlink_tail unlink_inner
  unlink l head n =
      if head == l.head
      then unlink_head l head n
      else if head == l.tail
      then unlink_tail l head n
      else unlink_inner l head n

  pub remove_at_loop : Llist V → ℤ → ℕ → ℕ → Ptr → Cmd V (Ptr × Llist V)
  unfolding unlink
  remove_at_loop l index zero i head = λ _. out_of_fuel
  remove_at_loop l index (suc k) i head = if head == null then pure (null, l) else do
    n ← load head
    if pos i ==ℤ index then unlink l head n else remove_at_loop l index k (i + 1) n.next

  pub llist_remove_at : Llist V → ℤ → Cmd V (Ptr × Llist V)
  unfolding remove_at_loop
  llist_remove_at l index = remove_at_loop l index (l.size + 1) 0 l.head

  pub llist_pop : Llist V → Cmd V (Ptr × Llist V)
  llist_pop l = if l.size == 0 then pure (null, l) else do
    n ← load l.head
    if l.size == 1
        then (do
          free_node l.head
          pure (n.item, record l { size = l.size - 1; head = null; tail = null }))
        else do
          set_prev n.next null
          free_node l.head
          pure (n.item, record l { size = l.size - 1; head = n.next })

  -- The body of `llist_remove` and, again, of `llist_remove_free`.
  pub remove_loop : Llist V → Ptr → ℕ → ℕ → Ptr → Cmd V (ℤ × Llist V)
  remove_loop l item zero i head = λ _. out_of_fuel
  remove_loop l item (suc k) i head = if head == null then pure (elem_not_found, l) else do
    n ← load head
    differ ← l.equals n.item item
    if differ ==ℤ pos 0
        then (do (_, l') ← llist_remove_at l (pos i); free_item n.item; pure (success, l'))
        else remove_loop l item k (i + 1) n.next

  pub llist_remove : Llist V → Ptr → Cmd V (ℤ × Llist V)
  unfolding remove_loop
  llist_remove l item = remove_loop l item (l.size + 1) 0 l.head

  pub llist_remove_free : Llist V → Ptr → Cmd V (ℤ × Llist V)
  unfolding remove_loop
  llist_remove_free l item = remove_loop l item (l.size + 1) 0 l.head

  -- `args` is the state that `act_on` reads and writes. The counter runs over `size`, which
  -- `act_on` has no access to; `left` is what remains of it.
  pub iterate_loop : {S : Type 0} → Llist V → (Ptr → S → Cmd V S) → ℕ → ℕ → S → Cmd V S
  unfolding llist_get
  iterate_loop l act_on zero i args = pure args
  iterate_loop l act_on (suc left) i args = do
    elem ← llist_get l (pos i)
    args' ← if elem == null then pure args else act_on elem args
    iterate_loop l act_on left (i + 1) args'

  pub llist_iterate : {S : Type 0} → Llist V → (Ptr → S → Cmd V S) → S → Cmd V S
  unfolding iterate_loop
  llist_iterate l act_on args = iterate_loop l act_on l.size 0 args

  pub destroy_loop : ℕ → Llist V → Cmd V (Llist V)
  unfolding llist_remove_at
  destroy_loop zero l = λ _. out_of_fuel
  destroy_loop (suc k) l =
      if ltb 0 l.size then (llist_remove_at l (pos 0) >>= λ (_, l'). destroy_loop k l') else pure l

  pub llist_destroy : Llist V → Cmd V (Llist V)
  unfolding destroy_loop
  llist_destroy l = destroy_loop (l.size + 1) l
