-- ===== src/Command/Tuple.antt =====
-- One tuple of a command text of src/routing/router_app_vt.c, as the TimeKeeper module writes it.
use vt_mechanisms.Prelude.{
  moved, at-cons, at-append, ℕ, zero, suc, ◌+◌, ◌/◌, ◌%◌, ◌<◌, ◌≤◌, ◌≡◌, refl, ap, ◌∙◌, subst, inl,
  inr, false, List, [], ◌∷◌, ◌++◌, some, arith, ◌==◌, ltb, get_elem?, drop, length, length-append,
  append_assoc, ℤ, pos, Bool-cases, ◌+ℤ◌, ◌-ℤ◌,
}
use vt_mechanisms.Word.{sign_bit, signed}
use vt_mechanisms.Decimal.{is_digit, print_nat}
use vt_mechanisms.Decimal.RoundTrip.{print_nat-first}
use vt_mechanisms.Command.{
  str_eq_at, stop_text, CommandTuple, no_tuple, tuple_at, get_next_command_tuple, get_next_value,
  advance_of,
}
use vt_mechanisms.Command.Reads.{
  AllDigits, print_nat-AllDigits, str_to_i-digits, get_next_value-end, get_next_value-more,
}

-- `|pid,n_insns`
abbrev pub print_tuple : ℕ → ℕ → List ℕ
print_tuple pid n = b'|' ∷ (print_nat pid pid ++ b',' ∷ print_nat n n)

-- the numbers fit an `int`, and no process has the number 0
abbrev pub Fits : ℕ → ℕ → Type 0
Fits pid n = (1 ≤ pid) × (pid < sign_bit) × (n < sign_bit)

print_nat-last :
    (k n : ℕ) → n ≤ k → (s : List ℕ) × (d : ℕ) × (print_nat k n ≡ s ++ (b'0' + d) ∷ []) × (d ≤ 9)
unfolding print_nat
print_nat-last zero n le = ([], n, refl, omega arith)
print_nat-last (suc k) n le = elim (Bool-cases (ltb n 10)) [
  | inl small ↦ ([], n, rw small refl, ground arith)
  | inr large ↦ (print_nat k (n / 10), n % 10, rw large refl, omega arith)
]

signed_small : (n : ℕ) → n < sign_bit → signed n ≡ pos n
unfolding signed
signed_small n lt = ground arith

pub advance_of-small : (n : ℕ) → n < sign_bit → advance_of n ≡ pos (n / 1000)
unfolding advance_of
advance_of-small n lt = rw (advance_of, signed_small n lt) refl

not_stop :
    (s : List ℕ) (i c : ℕ)
    → get_elem? s i ≡ some c
    → (c == b'S') ≡ false
    → str_eq_at stop_text s i ≡ some false
unfolding str_eq_at
not_stop s i c e ne = rw (e, ne) refl

-- at a byte that is not a bar there is no tuple
no_bar :
    (s : List ℕ) (i c : ℕ)
    → get_elem? s i ≡ some c
    → (c == b'S') ≡ false
    → (c == b'|') ≡ false
    → get_next_command_tuple s (pos i) ≡ some no_tuple
unfolding get_next_command_tuple tuple_at
no_bar s i c e ns nb = rw (not_stop s i c e ns, e, nb) refl

module _ (s : List ℕ) (i pid n c : ℕ) (t : List ℕ) (e : drop i s ≡ print_tuple pid n ++ c ∷ t)
    (fits : Fits pid n) (ends : is_digit c ≡ false) where
  -- where the second number stands
  abbrev second : ℕ
  second = length (print_nat pid pid) + 2 + i

  abbrev pub read_tuple : ℤ → CommandTuple
  read_tuple last = record { resume_ptr = pos second +ℤ last -ℤ pos 1; pid = pos pid; n_insns = n }

  at_bar : drop i s ≡ b'|' ∷ (print_nat pid pid ++ b',' ∷ (print_nat n n ++ c ∷ t))
  at_bar = e ∙ ap (λ r. b'|' ∷ r) (append_assoc (print_nat pid pid) (b',' ∷ print_nat n n) (c ∷ t))

  at_pid : drop (i + 1) s ≡ print_nat pid pid ++ b',' ∷ (print_nat n n ++ c ∷ t)
  at_pid = (at-cons s i (b'|') _ at_bar).1

  at_second : drop second s ≡ print_nat n n ++ c ∷ t
  at_second =
      let comma = i + 1 + length (print_nat pid pid) in
      moved s (print_nat n n ++ c ∷ t) (comma + 1) second (omega arith)
        (at-cons s comma (b',') (print_nat n n ++ c ∷ t)
          (at-append s (i + 1) (print_nat pid pid) (b',' ∷ (print_nat n n ++ c ∷ t)) at_pid)).1

  next_pid : get_next_value s i ≡ some (pos (length (print_nat pid pid) + 2))
  next_pid =
      let (d, ds, f, le) = print_nat-first n n (omega arith) in
      get_next_value-more s i (b'|') (print_nat pid pid) (b',') (print_nat n n ++ c ∷ t) at_bar
        (print_nat-AllDigits pid pid (omega arith)) refl (b'0' + d) (ds ++ c ∷ t) (rw f refl) refl
        (ground arith)

  read_at :
      (last : ℤ)
      → get_next_value s second ≡ some last
      → get_next_command_tuple s (pos i) ≡ some (read_tuple last)
  unfolding get_next_command_tuple tuple_at
  read_at last f =
      let (bar, _) = at-cons s i (b'|') _ at_bar in
      let p =
        str_to_i-digits s (i + 1) pid (b',') (print_nat n n ++ c ∷ t) at_pid refl
          (omega (arith, fits.1)) in
      let m = str_to_i-digits s second n c t at_second ends (omega (arith, fits.2)) in
      rw (not_stop s i (b'|') bar refl, bar, p, next_pid, m, f, signed_small pid fits.1) refl

  rest_of_second : (d : ℕ) × (ds : List ℕ) × (print_nat n n ≡ (b'0' + d) ∷ ds) × AllDigits ds
  rest_of_second =
      let (d, ds, f, le) = print_nat-first n n (omega arith) in
      (d, ds, f, (subst AllDigits f (print_nat-AllDigits n n (omega arith))).1)

  -- a further tuple follows: the parser stands at its bar
  pub read_more :
      (d : ℕ) (t' : List ℕ)
      → t ≡ d ∷ t'
      → (c == 0) ≡ false
      → (d == 0) ≡ false
      → get_next_command_tuple s (pos i)
        ≡ some (record {
          resume_ptr = pos (second + length (print_nat n n));
          pid = pos pid;
          n_insns = n;
        })
  unfolding ◌+ℤ◌ ◌-ℤ◌
  read_more d t' f nz nz' =
      let (x, ds, g, all) = rest_of_second in
      let at = at_second ∙ ap (λ r. r ++ c ∷ t) g in
      let last = get_next_value-more s second (b'0' + x) ds c t at all ends d t' f nz nz' in
      let measure = ap length g in
      read_at _ last
      ∙ ap (λ p. some (record { resume_ptr = p; pid = pos pid; n_insns = n }))
          (ground (arith, measure))

  -- the text ends: the parser goes back to the last digit of the first number
  pub read_last :
      c ≡ 0
      → get_next_command_tuple s (pos i)
        ≡ some (record {
          resume_ptr = pos (length (print_nat pid pid) + i);
          pid = pos pid;
          n_insns = n;
        })
  unfolding ◌+ℤ◌ ◌-ℤ◌
  read_last z =
      let (x, ds, g, all) = rest_of_second in
      let at = at_second ∙ ap (λ r. r ++ c ∷ t) g in
      read_at _ (get_next_value-end s second (b'0' + x) ds c t at all ends z)
      ∙ ap (λ p. some (record { resume_ptr = p; pid = pos pid; n_insns = n })) (ground arith)

  -- where no tuple is
  pub back_to_digit :
      get_next_command_tuple s (pos (length (print_nat pid pid) + i)) ≡ some no_tuple
  back_to_digit =
      let (front, x, f, le) = print_nat-last pid pid (omega arith) in
      let at : drop (i + 1) s ≡ front ++ (b'0' + x) ∷ (b',' ∷ (print_nat n n ++ c ∷ t)) =
        at_pid ∙ ap (λ r. r ++ b',' ∷ (print_nat n n ++ c ∷ t)) f ∙ append_assoc front _ _ in
      let measure = ap length f in
      let digit =
        moved s _ (i + 1 + length front) (length (print_nat pid pid) + i)
          (omega (arith, measure, length-append front ((b'0' + x) ∷ [])))
          (at-append s (i + 1) front _ at) in
      no_bar s (length (print_nat pid pid) + i) (b'0' + x) (at-cons s _ (b'0' + x) _ digit).0
        (ground arith) (ground arith)
