-- ===== src/Command/Ends.antt =====
-- The loop over the command tuples of src/routing/router_app_vt.c, on a buffer with a NUL in it.
use vt_mechanisms.Prelude.{
  ℕ, zero, suc, ◌+◌, ◌-◌, ◌<◌, ◌≤◌, ◌≡◌, refl, ◌⊎◌, inl, inr, Bool, true, false, ◌||◌, ◌&&◌, not,
  List, [], ◌∷◌, Option, some, arith, ◌==◌, if◌then◌else◌, get_elem?, length, ℤ, pos, negsuc,
  Bool-cases, ◌==ℤ◌, ◌+ℤ◌, ◌-ℤ◌, ◌≤ℤ◌,
}
use vt_mechanisms.Word.{signed}
use vt_mechanisms.Decimal.{str_to_i}
use vt_mechanisms.Command.{
  str_eq_at, stop_text, CommandTuple, no_tuple, stop_tuple, tuple_at, get_next_command_tuple,
  advance_of, Advance, stop, advance, command_loop, clamp_advance, parse_commands,
}
use vt_mechanisms.Command.Total
use vt_mechanisms.Command.Total.{NextValue}

signed_zero : signed 0 ≡ pos 0
unfolding signed
signed_zero = refl

abbrev NoNul : List ℕ → Type 0
NoNul [] = Unit
NoNul (x ∷ xs) = ((x == 0) ≡ false) × NoNul xs

module _ (s : List ℕ) (z : ℕ) (nul : get_elem? s z ≡ some 0) where
  str_eq_at-some :
      (text : List ℕ) (i : ℕ) → NoNul text → i ≤ z → (b : Bool) × (str_eq_at text s i ≡ some b)
  unfolding str_eq_at
  str_eq_at-some [] i letters le = let (c, e) = Total.byte s z nul i le in (c == 0, rw e)
  str_eq_at-some (x ∷ xs) i letters le =
      let (c, e) = Total.byte s z nul i le in
      elim (Bool-cases (c == x)) [
        | inl same ↦
            let lt = Total.before_nul s z nul i le e (ground (arith, letters.0)) in
            let (b, run) = str_eq_at-some xs (i + 1) letters.1 (omega arith) in
            (b, rw (e, same) run)
        | inr other ↦ (false, rw (e, other))
      ]

  -- From the index `i` the parser goes on behind `i`, or the loop ends with this tuple.
  data Follows (i : ℕ) (t : CommandTuple) : Type 0 where
    ends : t.resume_ptr ≡ negsuc 0 → Follows i t
    empty : t.pid ≡ pos 0 → Follows i t
    on : (j : ℕ) → t.resume_ptr ≡ pos j → i < j → j ≤ z → Follows i t

  -- The second number is the last one: the pointer goes back to a digit of the first.
  back_step :
      (i j pid n : ℕ)
      → NextValue s z nul i j
      → str_to_i s (i + 1) ≡ some pid
      → Follows i (record {
        resume_ptr = pos (j + 1 + i) +ℤ negsuc 0 -ℤ pos 1;
        pid = signed pid;
        n_insns = n;
      })
  unfolding ◌+ℤ◌ ◌-ℤ◌
  back_step i j pid n v e = elim (Bool-cases (j == 1)) [
    | inl one ↦
        let (c, e', nd) = v.ends in
        let at : i + j ≡ i + 1 = ground arith in
        let none_read = Total.str_to_i-zero s z nul (i + 1) c (rw at at e') nd in
        let pid_zero : pid ≡ 0 = cc in empty (rw pid_zero signed_zero)
    | inr more ↦
        on (i + j - 1) (ground (arith, v.positive)) (ground (arith, v.positive))
          (omega (arith, v.inside))
  ]

  tuple_at-Follows : (i : ℕ) → i ≤ z → (t : CommandTuple) × (tuple_at s i ≡ some t) × Follows i t
  unfolding tuple_at ◌+ℤ◌ ◌-ℤ◌
  tuple_at-Follows i le =
      let (bar, e) = Total.byte s z nul i le in
      elim (Bool-cases (not (bar == b'|') || (bar == 0))) [
        | inl other ↦ (no_tuple, rw (e, other), ends refl)
        | inr is_bar ↦
            let lt = Total.before_nul s z nul i le e (ground arith) in
            let (pid, e₁) = Total.str_to_i-some s z nul (i + 1) (omega arith) in
            elim (Total.get_next_value-some s z nul i (omega arith)) [
              | inl last ↦ (no_tuple, rw (e, is_bar, e₁, last), ends refl)
              | inr (j, next, v) ↦
                  let nxt = j + 1 + i in
                  let (n, e₂) = Total.str_to_i-some s z nul nxt (omega (arith, v.inside)) in
                  elim (Total.get_next_value-some s z nul nxt (omega (arith, v.inside))) [
                    | inl last ↦ (
                      record {
                        resume_ptr = pos nxt +ℤ negsuc 0 -ℤ pos 1;
                        pid = signed pid;
                        n_insns = n;
                      },
                      rw (e, is_bar, e₁, next, e₂, last),
                      back_step i j pid n v e₁,
                    )
                    | inr (j', next', v') ↦ (
                      record {
                        resume_ptr = pos nxt +ℤ pos (j' + 1) -ℤ pos 1;
                        pid = signed pid;
                        n_insns = n;
                      },
                      rw (e, is_bar, e₁, next, e₂, next'),
                      on (nxt + j') (ground arith) (omega arith) (omega (arith, v'.inside)),
                    )
                  ]
            ]
      ]

  get_next_command_tuple-Follows :
      (i : ℕ)
      → i ≤ z
      → (t : CommandTuple) × (get_next_command_tuple s (pos i) ≡ some t) × Follows i t
  unfolding get_next_command_tuple
  get_next_command_tuple-Follows i le =
      let (b, e) = str_eq_at-some stop_text i (refl, (refl, (refl, (refl, tt)))) le in
      elim (Bool-cases b) [
        | inl halt ↦ (stop_tuple, rw (e, halt), ends refl)
        | inr go ↦ let (t, run, f) = tuple_at-Follows i le in (t, rw (e, go) run, f)
      ]

  -- the three tests of a round, when the last one or an earlier one ends the loop
  round-some :
      (t : CommandTuple) (adv : ℤ) (rest : Option Advance)
      → (((t.resume_ptr ==ℤ negsuc 0) ≡ true) ⊎ ((t.pid ==ℤ pos 0) ≡ true))
        ⊎ ((a : Advance) × (rest ≡ some a))
      → (a : Advance) × ((if (t.resume_ptr ==ℤ negsuc 0) && (t.pid ==ℤ negsuc 0)
            then some stop
            else if t.pid ==ℤ pos 0
            then some (advance adv)
            else if t.resume_ptr ==ℤ negsuc 0
            then some (advance (advance_of t.n_insns))
            else rest)
          ≡ some a)
  round-some t adv rest h =
      elim (Bool-cases ((t.resume_ptr ==ℤ negsuc 0) && (t.pid ==ℤ negsuc 0))) [
        | inl halt ↦ (stop, rw halt)
        | inr go ↦ elim (Bool-cases (t.pid ==ℤ pos 0)) [
          | inl none_left ↦ (advance adv, rw (go, none_left))
          | inr more ↦ elim (Bool-cases (t.resume_ptr ==ℤ negsuc 0)) [
            | inl last ↦ (advance (advance_of t.n_insns), rw (go, more, last))
            | inr further ↦ elim h [
              | inl (inl e) ↦ absurd (ground arith)
              | inl (inr e) ↦ absurd (ground arith)
              | inr (a, e) ↦ (a, rw (go, more, further) e)
            ]
          ]
        ]
      ]

  command_loop-some :
      (k i : ℕ) (adv : ℤ)
      → i ≤ z
      → z < i + k
      → (a : Advance) × (command_loop k s (pos i) adv ≡ some a)
  unfolding command_loop
  command_loop-some zero i adv le fuel = absurd (omega arith)
  command_loop-some (suc k) i adv le fuel =
      let (t, run, f) = get_next_command_tuple-Follows i le in
      let rest = command_loop k s t.resume_ptr (advance_of t.n_insns) in
      rw run (
        round-some t adv rest (elim f [
          | ends e ↦ inl (inl (rw e refl))
          | empty e ↦ inl (inr (rw e refl))
          | on j e lt le' ↦
              let (a, run') = command_loop-some k j (advance_of t.n_insns) le' (omega arith) in
              inr (a, rw e run')
        ]))

-- an advance is never -1 by accident: a negative one is replaced
clamp_advance-ge : (a : Advance) → (clamp_advance a ≡ negsuc 0) ⊎ (pos 0 ≤ℤ clamp_advance a)
unfolding clamp_advance
clamp_advance-ge stop = inl refl
clamp_advance-ge (advance (pos n)) = inr (ground arith)
clamp_advance-ge (advance (negsuc n)) = inr (ground arith)

-- On every buffer with a NUL in it the command parser ends, reads nothing outside the buffer, and
-- gives -1 or an advance that is not negative.
pub parse_commands-total :
    (buffer : List ℕ) (z : ℕ)
    → get_elem? buffer z ≡ some 0
    → (r : ℤ) × (parse_commands buffer ≡ some r) × ((r ≡ negsuc 0) ⊎ (pos 0 ≤ℤ r))
unfolding parse_commands
parse_commands-total buffer z nul =
    let (a, run) =
      command_loop-some buffer z nul (length buffer + 2) 0 (pos 100) (omega arith)
        (omega (arith, Total.get_elem?-lt buffer z nul)) in
    (clamp_advance a, rw run, clamp_advance-ge a)
