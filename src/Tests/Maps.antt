-- ===== src/Tests/Maps.antt =====
-- A table of two buckets; the second holds the key 5 with the value 700.
use vt_mechanisms.Prelude.{
  ℕ, zero, suc, ◌≡◌, refl, ◌==◌, if◌then◌else◌, [], ◌∷◌, Option, none, some, ℤ, pos, arith,
  get_elem?, codes,
}
use vt_mechanisms.Heap.{Ptr, null, Heap, ok, fault}
use vt_mechanisms.Heap.Access.{Ends}
use vt_mechanisms.LinkedList.{Llist, equals}
use vt_mechanisms.LinkedList.Linked.{Cells, elem, IsList}
use vt_mechanisms.HashMap.{
  HashmapElem, Hashmap, HCmd, bucket_index, hmap_get_abs, hmap_put_abs, hmap_remove_abs,
}
use vt_mechanisms.Hash.{name_key}
use vt_mechanisms.HashMap.Chain.{Live, find}
use vt_mechanisms.HashMap.Update.{InBucket}
use vt_mechanisms.HashMap.Index.{bucket_index-name_key}
use vt_mechanisms.HashMap.{default_map_size}
use vt_mechanisms.Hash.{str_hash}
use vt_mechanisms.Word.{sign_bit}
use vt_mechanisms.Prelude.{◌⊎◌, ◌<◌}
use vt_mechanisms.HashMap.Map.{IsMap, lookup, hmap_get_abs_lem}
use vt_mechanisms.Prelude.{◌≢◌, true, false}
use vt_mechanisms.LinkedList.Linked.{has}
use vt_mechanisms.HashMap.{hmap_destroy}
use vt_mechanisms.HashMap.Separate.{holds}
use vt_mechanisms.HashMap.Separate.{Distinct}
use vt_mechanisms.HashMap.Destroy.{FreesAll}
use vt_mechanisms.HashMap.Destroy.{hmap_destroy_lem}
use vt_mechanisms.HashMap.Put.{IsPut, hmap_put_abs_lem}
use vt_mechanisms.HashMap.Remove.{renamed, hmap_remove_abs_lem, hmap_remove_abs-breaks}

abbrev five : HashmapElem
five = record { key = null; key_val = pos 5; value = 700; equals = null }

abbrev heap : Heap HashmapElem
heap = record {
  nodes = λ p. if p == 10 then some (elem 100 0 0) else none;
  items = λ p. if p == 100 then some five else none;
}

abbrev chain : ℕ → Ptr → Llist HashmapElem
chain n p = record { size = n; head = p; tail = p; equals = equals }

abbrev no_ints : Ptr → Option ℤ
no_ints p = none

abbrev table : Hashmap
table = record {
  head = chain 0 null ∷ chain 1 10 ∷ [];
  size = 2;
  hash = no_ints;
  key_comparer = λ p q. none;
}

abbrev cells : ℕ → Cells
cells zero = []
cells (suc zero) = (10, 100) ∷ []
cells (suc (suc i)) = []

left-IsList : IsList heap.nodes (chain 0 null) []
left-IsList = record { size = refl; head = refl; tail = refl; linked = tt }

right-IsList : IsList heap.nodes (chain 1 10) ((10, 100) ∷ [])
right-IsList = record {
  size = refl;
  head = refl;
  tail = refl;
  linked = (refl, ground arith, refl, tt);
}

chains-IsList :
    (i : ℕ) (l : Llist HashmapElem)
    → get_elem? table.head i ≡ some l
    → IsList heap.nodes l (cells i)
chains-IsList zero l e = let is : chain 0 null ≡ l = cc in rw is at left-IsList
chains-IsList (suc zero) l e = let is : chain 1 10 ≡ l = cc in rw is at right-IsList
chains-IsList (suc (suc i)) l e = cc

chains-Live : (i : ℕ) → Live (InBucket 2 i) heap.items (cells i)
unfolding bucket_index
chains-Live zero = tt
chains-Live (suc zero) = ((five, refl, refl), ground arith, tt)
chains-Live (suc (suc i)) = tt

table-IsMap : IsMap heap table cells
table-IsMap = record { full = refl; list = chains-IsList; live = chains-Live }

hmap_get_abs_example : hmap_get_abs table (pos 5) heap ≡ ok (lookup heap.items 2 cells (pos 5)) heap
unfolding bucket_index
hmap_get_abs_example = hmap_get_abs_lem heap table cells table-IsMap (pos 5) 1 refl

lookup_runs : lookup heap.items 2 cells (pos 5) ≡ 700
unfolding bucket_index
lookup_runs = refl

-- the key 7 is not in the table, but its bucket has an element
hmap_put_abs_example :
    Ends
      (hmap_put_abs 300 five 30 (elem 1 2 3) table (pos 7) 900 heap)
      (IsPut heap table cells (pos 7) 900 300 30)
unfolding bucket_index
hmap_put_abs_example =
    hmap_put_abs_lem heap table cells table-IsMap (pos 7) 1 refl 900 300 five (ground arith) refl 30
      (elem 1 2 3) (ground arith) refl

abbrev no_call : Ptr → Ptr → Ptr → HCmd ℤ
no_call f key1 key2 = λ _. fault

-- the hash of "poll"
poll_key : name_key (codes "poll") ≡ pos 1367072374
unfolding name_key
poll_key = refl

hmap_remove_abs_example :
    hmap_remove_abs table (pos 5) heap ≡ ok tt (renamed heap (find heap.items (pos 5) (cells 1)))
unfolding bucket_index
hmap_remove_abs_example = hmap_remove_abs_lem heap table cells table-IsMap (pos 5) 1 refl

hmap_remove_abs-breaks_example : ¬ IsMap (renamed heap (some (100, five))) table cells
unfolding bucket_index
hmap_remove_abs-breaks_example =
    hmap_remove_abs-breaks heap table cells table-IsMap (pos 5) 1 refl 100 five
      (renamed heap (some (100, five))) (ground arith) refl hmap_remove_abs_example cells

-- "poll" in the table of `init_func_times`
bucket_index-name_key_example :
    ((str_hash (codes "poll") ≡ sign_bit)
      × (bucket_index (name_key (codes "poll")) default_map_size ≡ none))
    ⊎ ((i : ℕ) × (bucket_index (name_key (codes "poll")) default_map_size ≡ some i)
        × (i < default_map_size))
bucket_index-name_key_example = bucket_index-name_key (codes "poll")

other_chain-has : (i j : ℕ) (a : Ptr) → i ≢ j → has a (cells i) ≡ true → has a (cells j) ≡ false
other_chain-has zero j a ne i = cc
other_chain-has (suc zero) zero a ne i = refl
other_chain-has (suc zero) (suc zero) a ne i = absurd (ne refl)
other_chain-has (suc zero) (suc (suc j)) a ne i = refl
other_chain-has (suc (suc k)) j a ne i = cc

other_chain-holds :
    (i j : ℕ) (a : Ptr) → i ≢ j → holds a (cells i) ≡ true → holds a (cells j) ≡ false
other_chain-holds zero j a ne i = cc
other_chain-holds (suc zero) zero a ne i = refl
other_chain-holds (suc zero) (suc zero) a ne i = absurd (ne refl)
other_chain-holds (suc zero) (suc (suc j)) a ne i = refl
other_chain-holds (suc (suc k)) j a ne i = cc

cells-Distinct : (i : ℕ) → Distinct (cells i)
cells-Distinct zero = tt
cells-Distinct (suc zero) = (tt, tt)
cells-Distinct (suc (suc i)) = tt

hmap_destroy_example : Ends (hmap_destroy table heap) (λ _ g. FreesAll heap g cells 2)
hmap_destroy_example =
    hmap_destroy_lem heap table cells table-IsMap
      (record { nodes = other_chain-has; items = other_chain-holds; distinct = cells-Distinct })
