-- ===== src/HashMap.antt =====
-- src/routing/utils/hashmap.c and hashmap.h: a fixed array of lists of key and value. A map is a
-- value that holds its lists; their nodes and the `hashmap_elem` structures are in the heap. It is
-- never called with NULL for the map.
pub mod Chain
pub mod Update
pub mod Map
pub mod Separate
pub mod Destroy
pub mod Apart
pub mod Init
pub mod Remove
pub mod Put
pub mod Index
use vt_mechanisms.Prelude.{
  ℕ, zero, suc, ◌+◌, ◌%◌, Bool, ◌||◌, List, [], ◌∷◌, Option, none, some, ◌==◌, if◌then◌else◌,
  get_elem?, set, replicate, ℤ, pos, negsuc, ◌==ℤ◌, bit_xor,
}
use vt_mechanisms.Heap.{
  Ptr, null, LlistElem, Cmd, fault, out_of_fuel, pure, ◌>>=◌, ◌>>◌, load, free_node, load_item,
  store_item, malloc_item, free_item,
}
use vt_mechanisms.Hash.{HashFn, KeyComparer, int_hash, int_key_comparer}
use vt_mechanisms.LinkedList.{Llist, llist_init, llist_append, llist_set_equality_checker}

abbrev pub default_map_size : ℕ
default_map_size = 1000

-- struct hashmap_elem_struct; `equals` is a function pointer
pub record HashmapElem : Type 0 where
  pub key : Ptr
  pub key_val : ℤ
  pub value : Ptr
  pub equals : Ptr

-- struct hashmap_struct
pub record Hashmap : Type 0 where
  pub head : List (Llist HashmapElem)
  pub size : ℕ
  pub hash : HashFn
  pub key_comparer : KeyComparer

abbrev pub HCmd : Type 0 → Type 0
HCmd = Cmd HashmapElem

-- `call` is a call through a function pointer that is not NULL.
module _ (call : Ptr → Ptr → Ptr → HCmd ℤ) where
  unfoldable pub hmap_elem_comparer : Ptr → Ptr → HCmd ℤ
  hmap_elem_comparer elem1 elem2 = if (elem1 == null) || (elem2 == null) then pure (pos 1) else do
    e₁ ← load_item elem1
    e₂ ← load_item elem2
    if e₁.equals == null then (λ _. fault) else call e₁.equals e₁.key e₂.key

  -- The allocations of the array and of its lists are taken to succeed: the code does not test them.
  unfoldable pub hmap_init : (ints : Ptr → Option ℤ) → ℕ → Hashmap
  unfolding hmap_elem_comparer llist_init llist_set_equality_checker int_hash int_key_comparer
  hmap_init ints m_size =
      let map_size = if m_size == 0 then default_map_size else m_size in
      record {
        head = replicate map_size (llist_set_equality_checker llist_init hmap_elem_comparer);
        size = map_size;
        hash = int_hash ints;
        key_comparer = int_key_comparer ints;
      }

unfoldable pub hmap_set_hash : Hashmap → HashFn → Hashmap
hmap_set_hash h hashfn = record h { hash = hashfn }

unfoldable pub hmap_set_comparer : Hashmap → KeyComparer → Hashmap
hmap_set_comparer h comparerfn = record h { key_comparer = comparerfn }

-- `key % h->size`: no value for the size 0; C's remainder has the sign of the key, so a negative
-- key that is no multiple of the size gives an index before the array.
unfoldable pub bucket_index : ℤ → ℕ → Option ℕ
bucket_index key zero = none
bucket_index (pos k) (suc n) = some (k % suc n)
bucket_index (negsuc k) (suc n) = if suc k % suc n == 0 then some 0 else none

-- `h->head[key % h->size]`
unfoldable pub bucket : Hashmap → ℤ → HCmd (ℕ × Llist HashmapElem)
unfolding bucket_index
bucket h key g = elim (bucket_index key h.size) [
  | none ↦ fault
  | some i ↦ elim (get_elem? h.head i) [ none ↦ fault | some list ↦ pure (i, list) g ]
]

-- The loop of `hmap_put_abs`: whether an element with the key was there and has been assigned.
pub put_loop : ℕ → ℤ → Ptr → Ptr → Ptr → HCmd Bool
put_loop zero key value new_elem head = λ _. out_of_fuel
put_loop (suc k) key value new_elem head = if head == null then pure Bool.false else do
  n ← load head
  temp ← load_item n.item
  if temp.key_val ==ℤ key
      then (do
        store_item n.item (record temp { value = value })
        free_item new_elem
        pure Bool.true)
      else put_loop k key value new_elem n.next

-- `new_elem` and `node` are what the two calls of `malloc` return, with what was there before. The
-- code does not test `new_elem`, and ignores the result of `llist_append`.
pub hmap_put_abs :
    (new_elem : Ptr) → HashmapElem → (node : Ptr) → LlistElem → Hashmap → ℤ → Ptr → HCmd Hashmap
unfolding put_loop bucket
hmap_put_abs new_elem old_elem node old_node h key value = do
  (index, list) ← bucket h key
  malloc_item new_elem old_elem
  store_item new_elem (record old_elem { key_val = key; value = value; equals = null })
  found ← put_loop (list.size + 1) key value new_elem list.head
  if found then pure h else (do
    (_, list') ← llist_append node old_node list new_elem
    pure (record h { head = set h.head index list' }))

pub get_loop : ℕ → ℤ → Ptr → HCmd Ptr
get_loop zero key head = λ _. out_of_fuel
get_loop (suc k) key head = if head == null then pure null else do
  n ← load head
  if n.item == null then get_loop k key n.next else (do
    temp ← load_item n.item
    if temp.key_val ==ℤ key then pure temp.value else get_loop k key n.next)

pub hmap_get_abs : Hashmap → ℤ → HCmd Ptr
unfolding get_loop bucket
hmap_get_abs h key = do (index, list) ← bucket h key; get_loop (list.size + 1) key list.head

pub remove_loop : ℕ → ℤ → Ptr → HCmd (Unit {0})
remove_loop zero key head = λ _. out_of_fuel
remove_loop (suc k) key head = if head == null then pure tt else do
  n ← load head
  temp ← load_item n.item
  if temp.key_val ==ℤ key
      then store_item n.item (record temp { key_val = pos 0 })
      else remove_loop k key n.next

-- The element stays in its list, under the key 0.
pub hmap_remove_abs : Hashmap → ℤ → HCmd (Unit {0})
unfolding remove_loop bucket
hmap_remove_abs h key = do (index, list) ← bucket h key; remove_loop (list.size + 1) key list.head

destroy_chain : ℕ → Ptr → HCmd (Unit {0})
destroy_chain zero head = λ _. out_of_fuel
destroy_chain (suc k) head =
    if head == null
    then pure tt
    else do temp ← load head; free_item temp.item; free_node head; destroy_chain k temp.next

destroy_lists : List (Llist HashmapElem) → HCmd (Unit {0})
unfolding destroy_chain
destroy_lists [] = pure tt
destroy_lists (l ∷ ls) = destroy_chain (l.size + 1) l.head >> destroy_lists ls

-- The array, and the structs of the lists that its entries point to, are not in the heap of the model:
-- `free(h->head[i])` and `free(h->head)` have no counterpart.
pub hmap_destroy : Hashmap → HCmd (Unit {0})
unfolding destroy_lists
hmap_destroy h = destroy_lists h.head
