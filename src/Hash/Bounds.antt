-- ===== src/Hash/Bounds.antt =====
-- The range of a hash and of the key that is made of it, and the index of its bucket.
use vt_mechanisms.Prelude.{
  ℕ, ◌-◌, ◌<◌, ◌≡◌, List, arith, ◌==◌, pos, negsuc, Bool-cases, inl, inr, ◌⊎◌,
}
use vt_mechanisms.Word.{int_mod, sign_bit, add_int-lt, abs, signed}
use vt_mechanisms.Hash.{str_hash, name_key}

pub str_hash-lt : (s : List ℕ) → str_hash s < int_mod
unfolding str_hash
str_hash-lt s = add_int-lt _ _

signed-abs :
    (a : ℕ)
    → a < int_mod
    → ((a ≡ sign_bit) × (signed (abs a) ≡ negsuc (sign_bit - 1)))
      ⊎ ((k : ℕ) × (signed (abs a) ≡ pos k) × (k < sign_bit))
unfolding signed abs
signed-abs a lt = elim (Bool-cases (a == sign_bit)) [
  | inl least ↦ inl (ground arith, ground arith)
  | inr other ↦ inr (abs a, ground arith, ground arith)
]

-- The key of a name is not negative and an `int`, unless the name hashes to the least `int`: then
-- the key is that number.
pub name_key-range :
    (s : List ℕ)
    → ((str_hash s ≡ sign_bit) × (name_key s ≡ negsuc (sign_bit - 1)))
      ⊎ ((k : ℕ) × (name_key s ≡ pos k) × (k < sign_bit))
unfolding name_key
name_key-range s = signed-abs (str_hash s) (str_hash-lt s)
