-- ===== src/Hash.antt =====
-- The hash functions and key comparers of src/routing/utils/hashmap.c, and the key that
-- src/routing/utils.c makes of a function's name.
pub mod Bounds
use vt_mechanisms.Prelude.{
  ℕ, Bool, ◌||◌, List, [], ◌∷◌, Option, none, some, ◌==◌, if◌then◌else◌, ℤ, pos, ◌==ℤ◌, bit_xor,
}
use vt_mechanisms.Word.{add_int, shift_left, shift_right, promote, abs, signed}
use vt_mechanisms.Decimal.{print_int, ◌>>=◌}
use vt_mechanisms.Heap.{Ptr, null}

-- A NUL-terminated string is the list of its bytes before the NUL.
str_hash_loop : List ℕ → ℕ → ℕ
unfolding add_int shift_left shift_right promote
str_hash_loop [] hash = hash
str_hash_loop (c ∷ s) hash =
    let h₁ = add_int hash (promote c) in
    let h₂ = add_int h₁ (shift_left h₁ 10) in str_hash_loop s (bit_xor h₂ (shift_right h₂ 6))

-- The result is the bit pattern of an `int`.
unfoldable pub str_hash : List ℕ → ℕ
unfolding str_hash_loop
str_hash s =
    let h₀ = str_hash_loop s 0 in
    let h₁ = add_int h₀ (shift_left h₀ 3) in
    let h₂ = bit_xor h₁ (shift_right h₁ 11) in add_int h₂ (shift_left h₂ 15)

-- The key under which utils.c files a function name: `abs(str_hash(name))`.
unfoldable pub name_key : List ℕ → ℤ
unfolding str_hash abs signed
name_key s = signed (abs (str_hash s))

-- `hashFn` and `equality_checker_fn`; `none` is a read at an address that holds no such value
abbrev pub HashFn : Type 0
HashFn = Ptr → Option ℤ

abbrev pub KeyComparer : Type 0
KeyComparer = Ptr → Ptr → Option ℤ

unfoldable pub default_key_comparer : KeyComparer
default_key_comparer key1 key2 = some (if key1 == key2 then pos 0 else pos 1)

-- `ints` is what the `int`s in memory hold.
module _ (ints : Ptr → Option ℤ) where
  unfoldable pub default_hash : HashFn
  default_hash elem = ints elem

  unfoldable pub int_hash : HashFn
  unfolding str_hash signed print_int
  int_hash val = do n ← ints val; some (signed (str_hash (print_int n)))

  unfoldable pub int_key_comparer : KeyComparer
  int_key_comparer key1 key2 =
      if (key1 == null) || (key2 == null)
      then some (pos 1)
      else do a ← ints key1; b ← ints key2; some (if a ==ℤ b then pos 0 else pos 1)

-- `strcmp` of the C library is an argument.
unfoldable pub str_key_comparer : (strcmp : KeyComparer) → KeyComparer
str_key_comparer strcmp key1 key2 = strcmp key1 key2
