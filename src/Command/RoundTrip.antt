-- ===== src/Command/RoundTrip.antt =====
-- The parser of src/routing/router_app_vt.c on a text of tuples as the TimeKeeper module writes it.
use vt_mechanisms.Prelude.{
  moved, at-append, ℕ, zero, suc, ◌+◌, ◌/◌, ◌≤◌, ◌≡◌, refl, ap, ◌∙◌, false, List, [], ◌∷◌, ◌++◌,
  some, arith, drop, length, length-append, append_assoc, ℤ, pos, negsuc, ◌==ℤ◌,
}
use vt_mechanisms.Decimal.{print_nat}
use vt_mechanisms.Decimal.RoundTrip.{print_nat-first}
use vt_mechanisms.Command.{
  no_tuple, get_next_command_tuple, advance_of, advance, command_loop, clamp_advance,
  parse_commands,
}
use vt_mechanisms.Command.Tuple.{
  print_tuple, Fits, advance_of-small, read_more, read_last, back_to_digit,
}

-- the tuple `|pid,n_insns` and the ones behind it
abbrev pub print_tuples : ℕ → ℕ → List (ℕ × ℕ) → List ℕ
print_tuples pid n [] = print_tuple pid n
print_tuples pid n ((pid', n') ∷ ts) = print_tuple pid n ++ print_tuples pid' n' ts

-- the second number of the last tuple
abbrev pub last_n : ℕ → List (ℕ × ℕ) → ℕ
last_n n [] = n
last_n n ((pid', n') ∷ ts) = last_n n' ts

abbrev pub AllFit : List (ℕ × ℕ) → Type 0
AllFit [] = Unit
AllFit ((pid, n) ∷ ts) = Fits pid n × AllFit ts

print_tuples-bar :
    (pid n : ℕ) (ts : List (ℕ × ℕ)) (rest : List ℕ)
    → (d : ℕ) × (t : List ℕ) × (print_tuples pid n ts ++ rest ≡ b'|' ∷ (b'0' + d) ∷ t) × (d ≤ 9)
print_tuples-bar pid n [] rest =
    let (d, ds, f, le) = print_nat-first pid pid (omega arith) in
    (d, _, ap (λ r. b'|' ∷ (r ++ b',' ∷ print_nat n n ++ rest)) f, le)
print_tuples-bar pid n ((pid', n') ∷ ts) rest =
    let (d, ds, f, le) = print_nat-first pid pid (omega arith) in
    (d, _, ap (λ r. b'|' ∷ (r ++ b',' ∷ print_nat n n ++ print_tuples pid' n' ts ++ rest)) f, le)

module _ (s : List ℕ) where
  loop_on :
      (i m pid n k : ℕ) (a : ℤ)
      → get_next_command_tuple s (pos i)
        ≡ some (record { resume_ptr = pos m; pid = pos pid; n_insns = n })
      → 1 ≤ pid
      → command_loop (suc k) s (pos i) a ≡ command_loop k s (pos m) (advance_of n)
  unfolding command_loop
  loop_on i m pid n k a e le =
      let far : (pos m ==ℤ negsuc 0) ≡ false = ground arith in
      let positive : (pos pid ==ℤ pos 0) ≡ false = ground arith in rw e (rw (far, positive) refl)

  loop_off :
      (i k : ℕ) (a : ℤ)
      → get_next_command_tuple s (pos i) ≡ some no_tuple
      → command_loop (suc k) s (pos i) a ≡ some (advance a)
  unfolding command_loop
  loop_off i k a e = rw e refl

  -- The text of the tuples from the index on, a NUL behind it.
  loop_lem :
      (ts : List (ℕ × ℕ)) (rest : List ℕ) (i pid n k : ℕ) (a : ℤ)
      → drop i s ≡ print_tuples pid n ts ++ 0 ∷ rest
      → Fits pid n
      → AllFit ts
      → length ts + 2 ≤ k
      → command_loop k s (pos i) a ≡ some (advance (pos (last_n n ts / 1000)))
  loop_lem ts rest i pid n zero a e fits all le = absurd (omega (arith, le))
  loop_lem ts rest i pid n (suc zero) a e fits all le = absurd (omega (arith, le))
  loop_lem [] rest i pid n (suc (suc k)) a e fits all le =
      loop_on i _ pid n (suc k) a (read_last s i pid n 0 rest e fits refl refl) fits.0
      ∙ loop_off _ k (advance_of n) (back_to_digit s i pid n 0 rest e fits refl)
      ∙ ap (λ m. some (advance m)) (advance_of-small n fits.2)
  loop_lem ((pid', n') ∷ ts) rest i pid n (suc (suc k)) a e fits all le =
      let more = print_tuples pid' n' ts ++ 0 ∷ rest in
      let split : drop i s ≡ print_tuple pid n ++ more =
        e ∙ append_assoc (print_tuple pid n) (print_tuples pid' n' ts) (0 ∷ rest) in
      let (d, t, f, nz) = print_tuples-bar pid' n' ts (0 ∷ rest) in
      let bar : drop i s ≡ print_tuple pid n ++ b'|' ∷ (b'0' + d) ∷ t =
        split ∙ ap (λ r. print_tuple pid n ++ r) f in
      let there =
        moved s more (i + length (print_tuple pid n)) _
          (omega (arith, length-append (print_nat pid pid) (b',' ∷ print_nat n n)))
          (at-append s i (print_tuple pid n) more split) in
      loop_on i _ pid n (suc k) a
        (read_more s i pid n (b'|') ((b'0' + d) ∷ t) bar fits refl (b'0' + d) t refl refl
          (ground arith))
        fits.0
      ∙ loop_lem ts rest _ pid' n' (suc k) (advance_of n) there all.0 all.1 (omega (arith, le))

tuples-length : (pid n : ℕ) (ts : List (ℕ × ℕ)) → length ts ≤ length (print_tuples pid n ts)
tuples-length pid n [] = omega arith
tuples-length pid n ((pid', n') ∷ ts) =
    omega
      (arith, tuples-length pid' n' ts, length-append (print_tuple pid n) (print_tuples pid' n' ts))

-- A text `|pid,n_insns|pid,n_insns..` whose numbers fit an `int` and are no process 0, a NUL behind
-- it, is an order to advance by the last count of instructions over 1000, whatever stands behind
-- the NUL.
pub parse_commands-print_tuples :
    (pid n : ℕ) (ts : List (ℕ × ℕ)) (rest : List ℕ)
    → Fits pid n
    → AllFit ts
    → parse_commands (print_tuples pid n ts ++ 0 ∷ rest) ≡ some (pos (last_n n ts / 1000))
unfolding parse_commands clamp_advance
parse_commands-print_tuples pid n ts rest fits all =
    let s = print_tuples pid n ts ++ 0 ∷ rest in
    rw
      (loop_lem s ts rest 0 pid n (length s + 2) (pos 100) refl fits all
        (omega (arith, tuples-length pid n ts, length-append (print_tuples pid n ts) (0 ∷ rest))))
      (ground arith)
