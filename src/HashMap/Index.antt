-- ===== src/HashMap/Index.antt =====
-- The bucket of a function's name in a table of the size that `init_func_times` of
-- src/routing/utils.c gives it.
use vt_mechanisms.Prelude.{ℕ, ◌%◌, ◌<◌, ◌≡◌, refl, ◌⊎◌, inl, inr, List, none, some, arith}
use vt_mechanisms.Word.{sign_bit}
use vt_mechanisms.Hash.{str_hash, name_key}
use vt_mechanisms.Hash.Bounds.{name_key-range}
use vt_mechanisms.HashMap.{default_map_size, bucket_index}

-- Every name has a bucket inside the table, but for one that hashes to the least `int`: its index
-- would lie before the array.
pub bucket_index-name_key :
    (s : List ℕ)
    → ((str_hash s ≡ sign_bit) × (bucket_index (name_key s) default_map_size ≡ none))
      ⊎ ((i : ℕ) × (bucket_index (name_key s) default_map_size ≡ some i) × (i < default_map_size))
unfolding bucket_index
bucket_index-name_key s = elim (name_key-range s) [
  | inl (least, e) ↦ inl (least, rw (e, bucket_index) refl)
  | inr (k, e, lt) ↦ inr (k % default_map_size, rw (e, bucket_index) refl, omega arith)
]
