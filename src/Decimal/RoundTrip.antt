-- ===== src/Decimal/RoundTrip.antt =====
-- `atoi` on what `sprintf("%d")` wrote, with or without text behind it.
use vt_mechanisms.Prelude.{
  ℕ, zero, suc, ◌+◌, ◌-◌, ◌*◌, ◌/◌, ◌%◌, ◌≤◌, ◌≡◌, refl, true, false, List, [], ◌∷◌, ◌++◌,
  append_assoc, ap, ◌∙◌, arith, ◌==◌, ltb, ℤ, pos, negsuc, Bool-cases, inl, inr,
}
use vt_mechanisms.Decimal.{is_digit, print_nat, print_int, atoi_digits, atoi}

-- no digit begins the text
abbrev pub EndsNumber : List ℕ → Type 0
EndsNumber [] = Unit
EndsNumber (c ∷ s) = is_digit c ≡ false

pub atoi_digits-ends : (t : List ℕ) (n : ℕ) → EndsNumber t → atoi_digits t n ≡ n
unfolding atoi_digits
atoi_digits-ends [] n e = refl
atoi_digits-ends (c ∷ t) n e = rw e

atoi_digits-digit :
    (n d : ℕ) (t : List ℕ) → d ≤ 9 → atoi_digits ((b'0' + d) ∷ t) n ≡ atoi_digits t (10 * n + d)
unfolding atoi_digits
atoi_digits-digit n d t h =
    let digit : is_digit (b'0' + d) ≡ true = ground arith in
    let value : 10 * n + (b'0' + d - b'0') ≡ 10 * n + d = omega arith in rw (digit, value)

-- Reading the digits of `n` and on is reading on from `n`.
pub atoi_digits-print_nat :
    (k n : ℕ) (t : List ℕ) → n ≤ k → atoi_digits (print_nat k n ++ t) 0 ≡ atoi_digits t n
unfolding print_nat
atoi_digits-print_nat zero n t le =
    atoi_digits-digit 0 n t (omega arith) ∙ ap (atoi_digits t) (omega arith)
atoi_digits-print_nat (suc k) n t le = elim (Bool-cases (ltb n 10)) [
  | inl small ↦ rw small (atoi_digits-digit 0 n t (ground arith) ∙ ap (atoi_digits t) (omega arith))
  | inr large ↦
      rw (large, append_assoc (print_nat k (n / 10)) ((b'0' + n % 10) ∷ []) t)
        (atoi_digits-print_nat k (n / 10) ((b'0' + n % 10) ∷ t) (ground arith)
          ∙ atoi_digits-digit (n / 10) (n % 10) t (omega arith)
          ∙ ap (atoi_digits t) (omega arith))
]

-- the text of a number begins with a digit
pub print_nat-first :
    (k n : ℕ) → n ≤ k → (d : ℕ) × (s : List ℕ) × (print_nat k n ≡ (b'0' + d) ∷ s) × (d ≤ 9)
unfolding print_nat
print_nat-first zero n le = (n, [], refl, omega arith)
print_nat-first (suc k) n le = elim (Bool-cases (ltb n 10)) [
  | inl small ↦ (n, [], rw small, ground arith)
  | inr large ↦
      let (d, s, e, h) = print_nat-first k (n / 10) (ground arith) in
      (d, s ++ (b'0' + n % 10) ∷ [], rw (large, e), h)
]

-- `atoi` reads back the number that `sprintf("%d")` wrote, whatever text that no digit begins
-- stands behind it
pub atoi-print_int : (m : ℤ) (t : List ℕ) → EndsNumber t → atoi (print_int m ++ t) ≡ m
unfolding atoi print_int
atoi-print_int (pos n) t e =
    let (d, s, f, h) = print_nat-first n n (omega arith) in
    let plain : ((b'0' + d) == b'-') ≡ false = ground arith in
    let run = atoi_digits-print_nat n n t (omega arith) ∙ atoi_digits-ends t n e in
    rw (f, plain) (ap pos (rw f at run))
atoi-print_int (negsuc n) t e =
    rw (atoi_digits-print_nat (suc n) (suc n) t (omega arith), atoi_digits-ends t (suc n) e)
