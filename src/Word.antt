-- ===== src/Word.antt =====
-- The C type `int` where it wraps: a bit pattern below 2 ^ 32, and the integer that it stands for.
-- Signed overflow is undefined in C; the model wraps, as gcc's code for the loops of the hash does.
-- `+int` is the same sum on the numbers themselves.
use vt_mechanisms.Prelude.{
  ℕ, ◌+◌, ◌-◌, ◌*◌, ◌/◌, ◌%◌, ◌^◌, ◌<◌, ◌≡◌, Bool, ltb, if◌then◌else◌, ℤ, pos, negsuc, ◌+ℤ◌, arith,
  ◌==◌,
}

abbrev pub int_mod : ℕ
int_mod = 4294967296

abbrev pub sign_bit : ℕ
sign_bit = 2147483648

unfoldable pub add_int : ℕ → ℕ → ℕ
add_int a b = (a + b) % int_mod

-- `a << k`
unfoldable pub shift_left : ℕ → ℕ → ℕ
shift_left a k = (a * 2 ^ k) % int_mod

-- `a >> k` on a signed operand keeps the sign.
unfoldable pub shift_right : ℕ → ℕ → ℕ
shift_right a k =
    if ltb a sign_bit then a / 2 ^ k else (a / 2 ^ k + (int_mod - int_mod / 2 ^ k)) % int_mod

-- A `char` is signed: a byte from 128 on is negative when it is promoted to `int`.
unfoldable pub promote : ℕ → ℕ
promote c = if ltb c 128 then c else c + (int_mod - 256)

unfoldable pub signed : ℕ → ℤ
signed a = if ltb a sign_bit then pos a else negsuc (int_mod - a - 1)

-- the `int` that a result stands for
unfoldable pub wrap : ℤ → ℤ
unfolding signed
wrap (pos n) = signed (n % int_mod)
wrap (negsuc n) = signed (int_mod - 1 - n % int_mod)

infixl 65 ◌+int◌
-- the sum of two `int`s, as numbers
unfoldable pub ◌+int◌ : ℤ → ℤ → ℤ
unfolding wrap ◌+ℤ◌
a +int b = wrap (a +ℤ b)

-- a sum that is an `int`
pub +int-pos : (a b : ℕ) → a + b < sign_bit → pos a +int pos b ≡ pos (a + b)
unfolding ◌+int◌ wrap signed ◌+ℤ◌
+int-pos a b lt = ground arith

-- `abs(a)`: the absolute value of the least `int` is not an `int`, and comes out unchanged.
unfoldable pub abs : ℕ → ℕ
abs a = if ltb a sign_bit then a else (int_mod - a) % int_mod

pub add_int-lt : (a b : ℕ) → add_int a b < int_mod
unfolding add_int
add_int-lt a b = omega arith

-- `abs` is not negative, but for the least `int`
pub abs-lt : (a : ℕ) → a < int_mod → (a == sign_bit) ≡ Bool.false → abs a < sign_bit
unfolding abs
abs-lt a lt ne = ground arith
