-- ===== src/Tests/Protocol.antt =====
-- A run of two rounds, the second of no time, and the texts on the pipes and from the kernel.
use vt_mechanisms.Prelude.{
  ℕ, zero, ◌+◌, ◌-◌, ◌≡◌, refl, false, List, [], ◌∷◌, ◌++◌, codes, some, arith, ℤ, pos, negsuc, ◌⊎◌,
  ◌≤ℤ◌, ◌-ℤ◌,
}
use vt_mechanisms.Decimal.{print_int, atoi}
use vt_mechanisms.Command.{parse_commands, results_text}
use vt_mechanisms.Command.RoundTrip.{print_tuples, parse_commands-print_tuples}
use vt_mechanisms.Prelude.{◌/◌}
use vt_mechanisms.Results.{write_results, going_on, write_results-short}
use vt_mechanisms.Command.Ends.{parse_commands-total}
use vt_mechanisms.Stub.{pipe_send, pipe_read}
use vt_mechanisms.Stub.Account.{update_stub_reports}
use vt_mechanisms.Rounds.{
  fetching, waiting, starting, awaiting, running, exited, World, world, report, elapse, after_first,
  Step, fetch_advance, see_running, send_advance, receive, first_reply, finish_round, Reach, here,
  next,
}
use vt_mechanisms.Rounds.Clock.{elapse-update_stub}
use vt_mechanisms.Rounds.Messages.{
  OneMessage, Reach-OneMessage, Commands, Reach-Commands, zero_round_stuck,
}

-- `|12,3000|7,4500`, NUL and one more byte
abbrev buffer : List ℕ
buffer =
    b'|' ∷ b'1' ∷ b'2' ∷ b',' ∷ b'3' ∷ b'0' ∷ b'0' ∷ b'0' ∷ b'|' ∷ b'7' ∷ b',' ∷ b'4' ∷ b'5' ∷ b'0'
    ∷ b'0' ∷ 0 ∷ 0 ∷ []

parse_commands-total_example :
    (r : ℤ) × (parse_commands buffer ≡ some r) × ((r ≡ negsuc 0) ⊎ (pos 0 ≤ℤ r))
parse_commands-total_example = parse_commands-total buffer 15 refl

-- `|12,3000|7,4500`
parse_commands-print_tuples_example :
    parse_commands (print_tuples 12 3000 ((7, 4500) ∷ []) ++ 0 ∷ 0 ∷ []) ≡ some (pos (4500 / 1000))
parse_commands-print_tuples_example =
    parse_commands-print_tuples 12 3000 ((7, 4500) ∷ []) (0 ∷ [])
      (omega arith, omega arith, omega arith) ((omega arith, omega arith, omega arith), tt)

elapse-update_stub_example :
    elapse (pos 1000) 120 (pipe_read (pipe_send (pos 30))) ≡ pos (1000 + (50 + (50 + 0) + 50))
elapse-update_stub_example =
    elapse-update_stub 1000 120 (50 ∷ 50 ∷ []) 50 [] (pipe_send (pos 30)) (omega arith)
      (omega arith) (omega arith)
      (update_stub_reports 120 (50 ∷ 50 ∷ []) 50 [] (omega arith) (omega arith))

-- `main` has sent a round of 5 microseconds and waits.
first_round : Reach (world (waiting 5) starting (b'5' ∷ []) [] false false (pos 0))
unfolding pipe_send print_int
first_round = next (next (next here (fetch_advance (pos 0) 5)) (see_running 5)) (send_advance 5)

-- The thread has spent 50 and reported 45; the next round has no time.
zero_round : Reach (world (waiting zero) awaiting (b'0' ∷ []) [] false false (pos 50))
unfolding pipe_send print_int pipe_read atoi after_first report elapse ◌-ℤ◌
zero_round =
    let reads : Reach (world (waiting 5) (running (pos 5)) [] [] false false (pos 0)) =
      next first_round (first_reply (b'5') []) in
    let reported : Reach (world (waiting 5) awaiting [] (b'4' ∷ b'5' ∷ []) false false (pos 0)) =
      next reads (finish_round (pos 5) (pos 50) (pos 45) refl refl) in
    let heard : Reach (world (fetching (pos 45)) awaiting [] [] false false (pos 50)) =
      next reported (receive 5 (b'4') (b'5' ∷ [])) in
    next (next (next heard (fetch_advance (pos 45) zero)) (see_running zero)) (send_advance zero)

Reach-OneMessage_example : OneMessage (b'5' ∷ []) [] false
Reach-OneMessage_example =
    Reach-OneMessage (waiting 5) starting (b'5' ∷ []) [] false false (pos 0) first_round

Reach-Commands_example : Commands (waiting 5) (pipe_read (b'5' ∷ []))
Reach-Commands_example =
    Reach-Commands (waiting 5) starting (b'5') [] [] false false (pos 0) first_round

zero_round_stuck_example :
    Reach (world (waiting zero) exited [] [] false false (pos 50))
    × ((w : World) → ¬ Step (world (waiting zero) exited [] [] false false (pos 50)) w)
zero_round_stuck_example = zero_round_stuck (b'0') [] [] false false (pos 50) zero_round

-- "J,0," written in two parts
write_results-short_example :
    write_results (some 1 ∷ some (4 - 1) ∷ some 0 ∷ some 0 ∷ []) (pos 0)
    ≡ going_on [] (codes "J,0,")
unfolding results_text
write_results-short_example = write_results-short (pos 0) 1 2 (omega arith) (ground arith)
