-- ===== src/Command/Total.antt =====
-- The reads of the command parser over a buffer with a NUL in it.
use vt_mechanisms.Prelude.{
  ℕ, zero, suc, ◌+◌, ◌-◌, ◌*◌, ◌%◌, ◌<◌, ◌≤◌, ◌≡◌, refl, ◌⊎◌, inl, inr, true, false, List, [], ◌∷◌,
  some, arith, ◌==◌, get_elem?, length, pos, negsuc, Bool-cases, ==→eq,
}
use vt_mechanisms.Word.{int_mod}
use vt_mechanisms.Decimal.{is_digit, str_to_i, str_to_i_loop}
use vt_mechanisms.Command.{skip_digits, get_next_value}

pub get_elem?-lt : (s : List ℕ) (i : ℕ) {c : ℕ} → get_elem? s i ≡ some c → i < length s
get_elem?-lt [] i e = cc
get_elem?-lt (x ∷ s) zero e = omega arith
get_elem?-lt (x ∷ s) (suc i) e = omega (arith, get_elem?-lt s i e)

get_elem?-some : (s : List ℕ) (i : ℕ) → i < length s → (c : ℕ) × (get_elem? s i ≡ some c)
get_elem?-some [] i lt = absurd (omega arith)
get_elem?-some (x ∷ s) zero lt = (x, refl)
get_elem?-some (x ∷ s) (suc i) lt = get_elem?-some s i (omega arith)

-- `z` is the index of a NUL.
module _ (s : List ℕ) (z : ℕ) (nul : get_elem? s z ≡ some 0) where
  pub byte : (i : ℕ) → i ≤ z → (c : ℕ) × (get_elem? s i ≡ some c)
  byte i le = get_elem?-some s i (omega (arith, get_elem?-lt s z nul))

  pub before_nul : (i : ℕ) {c : ℕ} → i ≤ z → get_elem? s i ≡ some c → (c == 0) ≡ false → i < z
  before_nul i {c} le e ne = elim (Bool-cases (i == z)) [
    | inl same ↦ let e' = rw (==→eq i z same) at e in ground (arith, nul)
    | inr other ↦ ground arith
  ]

  digit_before_nul : (i : ℕ) {c : ℕ} → i ≤ z → get_elem? s i ≡ some c → is_digit c ≡ true → i < z
  digit_before_nul i le e d = before_nul i le e (ground arith)

  str_to_i_loop-some : (k i n : ℕ) → i ≤ z → z < i + k → (m : ℕ) × (str_to_i_loop k s i n ≡ some m)
  unfolding str_to_i_loop
  str_to_i_loop-some zero i n le fuel = absurd (omega arith)
  str_to_i_loop-some (suc k) i n le fuel =
      let (c, e) = byte i le in
      elim (Bool-cases (is_digit c)) [
        | inl d ↦
            let (m, run) =
              str_to_i_loop-some k (i + 1) ((10 * n + (c - b'0')) % int_mod)
                (omega (arith, digit_before_nul i le e d)) (omega arith) in
            (m, rw (e, d) run)
        | inr nd ↦ (n, rw (e, nd))
      ]

  pub str_to_i-some : (start : ℕ) → start ≤ z → (m : ℕ) × (str_to_i s start ≡ some m)
  unfolding str_to_i
  str_to_i-some start le =
      str_to_i_loop-some (suc (length s)) start 0 le (omega (arith, get_elem?-lt s z nul))

  -- a text that no digit begins reads as 0
  pub str_to_i-zero :
      (start c : ℕ) → get_elem? s start ≡ some c → is_digit c ≡ false → str_to_i s start ≡ some 0
  unfolding str_to_i
  str_to_i-zero start c e nd = rw (e, nd)

  -- where the skipping stops
  record Skipped (base i j : ℕ) : Type 0 where
    from : i ≤ j
    inside : base + j ≤ z
    ends : (c : ℕ) × (get_elem? s (base + j) ≡ some c) × (is_digit c ≡ false)

  skip_digits-some :
      (k base i : ℕ)
      → base + i ≤ z
      → z < base + i + k
      → (j : ℕ) × (skip_digits k s base i ≡ some j) × Skipped base i j
  unfolding skip_digits
  skip_digits-some zero base i le fuel = absurd (omega arith)
  skip_digits-some (suc k) base i le fuel =
      let (c, e) = byte (base + i) le in
      elim (Bool-cases (is_digit c)) [
        | inl d ↦
            let (j, run, o) =
              skip_digits-some k base (i + 1) (omega (arith, digit_before_nul (base + i) le e d))
                (omega arith) in
            (
              j,
              rw (e, d) run,
              record { from = omega (arith, o.from); inside = o.inside; ends = o.ends },
            )
        | inr nd ↦ (i, rw (e, nd), record { from = omega arith; inside = le; ends = (c, e, nd) })
      ]

  -- `get_next_value` gives -1, or the distance to a byte before the NUL; then no digit stands at
  -- the byte before that one
  pub record NextValue (base j : ℕ) : Type 0 where
    pub positive : 1 ≤ j
    pub inside : base + j + 1 < z
    pub ends : (c : ℕ) × (get_elem? s (base + j) ≡ some c) × (is_digit c ≡ false)

  pub get_next_value-some :
      (base : ℕ)
      → base + 1 ≤ z
      → (get_next_value s base ≡ some (negsuc 0))
        ⊎ ((j : ℕ) × (get_next_value s base ≡ some (pos (j + 1))) × NextValue base j)
  unfolding get_next_value
  get_next_value-some base le =
      let (j, run, o) =
        skip_digits-some (suc (length s)) base 1 le (omega (arith, get_elem?-lt s z nul)) in
      let (c, e, nd) = o.ends in
      elim (Bool-cases (c == 0)) [
        | inl end ↦ inl (rw (run, e, end))
        | inr more ↦
            let lt = before_nul (base + j) o.inside e more in
            let (d, e') = byte (base + j + 1) (omega arith) in
            elim (Bool-cases (d == 0)) [
              | inl end ↦ inl (rw (run, e, more, e', end))
              | inr on ↦ inr (
                j,
                rw (run, e, more, e', on),
                record {
                  positive = o.from;
                  inside = before_nul (base + j + 1) (omega arith) e' on;
                  ends = o.ends;
                },
              )
            ]
      ]
