-- ===== src/Decimal.antt =====
-- Decimal numbers as C reads and writes them: `str_to_i` of src/routing/utils.c, and the library's
-- `sprintf("%d")` and `atoi` as that file uses them on pipes. Texts are lists of bytes.
pub mod RoundTrip
use vt_mechanisms.Prelude.{
  ℕ, zero, suc, ◌+◌, ◌-◌, ◌*◌, ◌/◌, ◌%◌, Bool, true, false, ◌&&◌, List, [], ◌∷◌, ◌++◌, Option, none,
  some, ◌==◌, ltb, leb, if◌then◌else◌, get_elem?, length, ℤ, pos, negsuc,
}
use vt_mechanisms.Word.{int_mod}

abbrev pub is_digit : ℕ → Bool
is_digit c = leb b'0' c && leb c b'9'

infixl 5 ◌>>=◌
-- `none` is a read outside the buffer.
abbrev pub ◌>>=◌ {ℓ κ} : {A : Type ℓ} {B : Type κ} → Option A → (A → Option B) → Option B
none >>= f = none
some a >>= f = f a

-- The bit pattern of the `int` that `n` holds when the loop stops at the index `i`.
unfoldable pub str_to_i_loop : ℕ → List ℕ → ℕ → ℕ → Option ℕ
str_to_i_loop zero s i n = none
str_to_i_loop (suc k) s i n = do
  c ← get_elem? s i
  let rest = str_to_i_loop k s (i + 1) ((10 * n + (c - b'0')) % int_mod)
  if is_digit c then rest else some n

-- `str_to_i(s + start)`. One round more than the buffer has bytes is enough.
unfoldable pub str_to_i : List ℕ → ℕ → Option ℕ
unfolding str_to_i_loop
str_to_i s start = str_to_i_loop (suc (length s)) s start 0

-- The digits of a number, without leading zeros; the fuel is any number that is not smaller.
unfoldable pub print_nat : ℕ → ℕ → List ℕ
print_nat zero n = (b'0' + n) ∷ []
print_nat (suc k) n =
    let front = print_nat k (n / 10) in
    if ltb n 10 then (b'0' + n) ∷ [] else front ++ (b'0' + n % 10) ∷ []

-- `sprintf(buf, "%d", m)`
unfoldable pub print_int : ℤ → List ℕ
unfolding print_nat
print_int (pos n) = print_nat n n
print_int (negsuc n) = b'-' ∷ print_nat (suc n) (suc n)

unfoldable pub atoi_digits : List ℕ → ℕ → ℕ
atoi_digits [] n = n
atoi_digits (c ∷ s) n = if is_digit c then atoi_digits s (10 * n + (c - b'0')) else n

negate : ℕ → ℤ
negate zero = pos 0
negate (suc n) = negsuc n

-- `atoi(buf)`, for a text that no white space or plus sign begins
unfoldable pub atoi : List ℕ → ℤ
unfolding atoi_digits negate
atoi [] = pos 0
atoi (c ∷ s) = if c == b'-' then negate (atoi_digits s 0) else pos (atoi_digits (c ∷ s) 0)
