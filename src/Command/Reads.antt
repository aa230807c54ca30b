-- ===== src/Command/Reads.antt =====
-- The reads of src/routing/router_app_vt.c and `str_to_i` at an index of a buffer from which a
-- number stands in it.
use vt_mechanisms.Prelude.{
  moved, at-cons, at-append, ℕ, zero, suc, ◌+◌, ◌-◌, ◌*◌, ◌/◌, ◌%◌, ◌<◌, ◌≤◌, ◌≡◌, refl, ap, ◌∙◌,
  inl, inr, true, false, List, [], ◌∷◌, ◌++◌, some, arith, ◌==◌, ltb, drop, length, length-drop,
  length-append, pos, negsuc, Bool-cases,
}
use vt_mechanisms.Word.{int_mod}
use vt_mechanisms.Decimal.{is_digit, print_nat, atoi_digits, str_to_i, str_to_i_loop}
use vt_mechanisms.Decimal.RoundTrip.{atoi_digits-print_nat, atoi_digits-ends}
use vt_mechanisms.Command.{skip_digits, get_next_value}

abbrev pub AllDigits : List ℕ → Type 0
AllDigits [] = Unit
AllDigits (c ∷ s) = (is_digit c ≡ true) × AllDigits s

pub AllDigits-append : (s t : List ℕ) → AllDigits s → AllDigits t → AllDigits (s ++ t)
AllDigits-append [] t a b = b
AllDigits-append (c ∷ s) t a b = (a.0, AllDigits-append s t a.1 b)

pub print_nat-AllDigits : (k n : ℕ) → n ≤ k → AllDigits (print_nat k n)
unfolding print_nat
print_nat-AllDigits zero n le = (ground arith, tt)
print_nat-AllDigits (suc k) n le = elim (Bool-cases (ltb n 10)) [
  | inl small ↦ rw small (ground arith, tt)
  | inr large ↦ rw large (
      AllDigits-append (print_nat k (n / 10)) _ (print_nat-AllDigits k (n / 10) (ground arith))
        (ground arith, tt))
]

skip_digits-digits :
    (ds : List ℕ) (s : List ℕ) (base i k c : ℕ) (t : List ℕ)
    → drop (base + i) s ≡ ds ++ c ∷ t
    → AllDigits ds
    → is_digit c ≡ false
    → length ds < k
    → skip_digits k s base i ≡ some (i + length ds)
unfolding skip_digits
skip_digits-digits ds s base i zero c t e all stop lt = absurd (omega (arith, lt))
skip_digits-digits [] s base i (suc k) c t e all stop lt =
    rw ((at-cons s (base + i) c t e).0, stop) (ap some (omega arith))
skip_digits-digits (d ∷ ds) s base i (suc k) c t e all stop lt =
    let (here, next) = at-cons s (base + i) d (ds ++ c ∷ t) e in
    let next' = moved s (ds ++ c ∷ t) (base + i + 1) (base + (i + 1)) (omega arith) next in
    rw (here, all.0)
      (skip_digits-digits ds s base (i + 1) k c t next' all.1 stop (omega (arith, lt))
        ∙ ap some (omega arith))

str_to_i_loop-digits :
    (ds : List ℕ) (s : List ℕ) (i k n c : ℕ) (t : List ℕ)
    → drop i s ≡ ds ++ c ∷ t
    → AllDigits ds
    → is_digit c ≡ false
    → length ds < k
    → str_to_i_loop k s i (n % int_mod) ≡ some (atoi_digits (ds ++ c ∷ t) n % int_mod)
unfolding str_to_i_loop atoi_digits
str_to_i_loop-digits ds s i zero n c t e all stop lt = absurd (omega (arith, lt))
str_to_i_loop-digits [] s i (suc k) n c t e all stop lt = rw ((at-cons s i c t e).0, stop) refl
str_to_i_loop-digits (d ∷ ds) s i (suc k) n c t e all stop lt =
    let (here, next) = at-cons s i d (ds ++ c ∷ t) e in
    let same : (10 * (n % int_mod) + (d - b'0')) % int_mod ≡ (10 * n + (d - b'0')) % int_mod =
      omega arith in
    rw (here, all.0, same)
      (str_to_i_loop-digits ds s (i + 1) k (10 * n + (d - b'0')) c t next all.1 stop
        (omega (arith, lt)))

module _ (s : List ℕ) (i : ℕ) where
  inside : (ds : List ℕ) (c : ℕ) (t : List ℕ) → drop i s ≡ ds ++ c ∷ t → length ds < suc (length s)
  inside ds c t e =
      let whole = ap length e in omega (arith, whole, length-drop i s, length-append ds (c ∷ t))

  -- a number at the index, with no digit behind it
  pub str_to_i-digits :
      (n c : ℕ) (t : List ℕ)
      → drop i s ≡ print_nat n n ++ c ∷ t
      → is_digit c ≡ false
      → n < int_mod
      → str_to_i s i ≡ some n
  unfolding str_to_i
  str_to_i-digits n c t e stop lt =
      let read =
        atoi_digits-print_nat n n (c ∷ t) (omega arith) ∙ atoi_digits-ends (c ∷ t) n stop in
      str_to_i_loop-digits (print_nat n n) s i (suc (length s)) 0 c t e
        (print_nat-AllDigits n n (omega arith)) stop (inside (print_nat n n) c t e)
      ∙ ap some (ap (λ m. m % int_mod) read ∙ omega (arith, lt))

  module _ (x : ℕ) (ds : List ℕ) (c : ℕ) (t : List ℕ) (e : drop i s ≡ x ∷ ds ++ c ∷ t)
      (all : AllDigits ds) (stop : is_digit c ≡ false) where
    skipped : skip_digits (suc (length s)) s i 1 ≡ some (1 + length ds)
    skipped =
        skip_digits-digits ds s i 1 (suc (length s)) c t (at-cons s i x (ds ++ c ∷ t) e).1 all stop
          (omega (arith, inside (x ∷ ds) c t e))

    behind : drop (i + (1 + length ds)) s ≡ c ∷ t
    behind =
        moved s (c ∷ t) (i + suc (length ds)) (i + (1 + length ds)) (omega arith)
          (at-append s i (x ∷ ds) (c ∷ t) e)

    -- the first byte behind the digits is the NUL
    pub get_next_value-end : c ≡ 0 → get_next_value s i ≡ some (negsuc 0)
    unfolding get_next_value
    get_next_value-end z =
        let nul : (c == 0) ≡ true = ground arith in
        rw (skipped, (at-cons s (i + (1 + length ds)) c t behind).0, nul) refl

    -- a further text follows
    pub get_next_value-more :
        (d : ℕ) (t' : List ℕ)
        → t ≡ d ∷ t'
        → (c == 0) ≡ false
        → (d == 0) ≡ false
        → get_next_value s i ≡ some (pos (length ds + 2))
    unfolding get_next_value
    get_next_value-more d t' f nz nz' =
        let (here, next) = at-cons s (i + (1 + length ds)) c t behind in
        let there = (at-cons s (i + (1 + length ds) + 1) d t' (next ∙ f)).0 in
        rw (skipped, here, nz, there, nz') (ap (λ j. some (pos j)) (omega arith))
