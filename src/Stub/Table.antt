-- ===== src/Stub/Table.antt =====
-- `update_stub` on a table of costs.
use vt_mechanisms.Prelude.{ℕ, ◌≡◌, refl, List, Option, none, some, ◌==◌, if◌then◌else◌, ℤ}
use vt_mechanisms.Heap.{Ptr, null, Heap, ok}
use vt_mechanisms.LinkedList.Linked.{Cells}
use vt_mechanisms.HashMap.{HashmapElem, Hashmap, bucket_index}
use vt_mechanisms.Hash.{name_key}
use vt_mechanisms.HashMap.Map.{IsMap, lookup, hmap_get_abs_lem}
use vt_mechanisms.Stub.{time_of, update_stub, update_stub_after}

-- the cost that a value of the table points to, if there is one
abbrev pub cost_at : (Ptr → ℤ) → Ptr → Option ℤ
cost_at times value = if value == null then none else some (times value)

-- On a table that is a map, `update_stub` with a function's name charges the cost that the map
-- holds under the hash of the name, and nothing where it holds none; the heap stays as it is.
pub update_stub_lem :
    (h : Heap HashmapElem) (m : Hashmap) (cells : ℕ → Cells)
    → IsMap h m cells
    → (last_fn : List ℕ) (i : ℕ) → bucket_index (name_key last_fn) m.size ≡ some i
    → (times : Ptr → ℤ) (curr : ℤ) (reply : List ℕ)
    → update_stub m times curr (some last_fn) reply h
      ≡ ok
          (update_stub_after
            (cost_at times (lookup h.items m.size cells (name_key last_fn)))
            curr
            reply)
          h
unfolding update_stub time_of
update_stub_lem h m cells is last_fn i at times curr reply =
    rw (hmap_get_abs_lem h m cells is (name_key last_fn) i at) refl
