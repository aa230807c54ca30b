-- ===== src/Tests/Threads.antt =====
-- The thread at work in two rounds of its outer loop, a round that is answered, and an exit.
use vt_mechanisms.Prelude.{
  ℕ, true, refl, zero, suc, false, List, [], ◌∷◌, Option, some, arith, ℤ, pos, negsuc, codes,
  replicate, if◌then◌else◌, ◌==◌,
}
use vt_mechanisms.Decimal.{print_int}
use vt_mechanisms.Stub.{Cost, pipe_send}
use vt_mechanisms.Router.{not_ready, nothing_read, packet, polled}
use vt_mechanisms.Rounds.{exited, fail_start, fetching, Step, World}
use vt_mechanisms.Rounds.Messages.{dead_thread_stuck}
use vt_mechanisms.Rounds.{
  joining, waiting, starting, world, fetch_advance, fetch_stop, send_exit, see_running,
  send_advance, Reach, here, next,
}
use vt_mechanisms.Rounds.Progress.{Answered, Reach-Answered, Exits, Reach-Exits}
use vt_mechanisms.RouterThread.{Turn, Round, ThreadState, run_thread}
use vt_mechanisms.RouterThread.Play.{Replied, Follows}
use vt_mechanisms.RouterThread.Enough.{Leaves}
use vt_mechanisms.RouterThread.Whole.{run_thread-Follows}

-- `main` waits for the answer to a round of 5 microseconds
waits : Reach (world (waiting 5) starting (b'5' ∷ []) [] false false (pos 0))
unfolding pipe_send print_int
waits = next (next (next here (fetch_advance (pos 0) 5)) (see_running 5)) (send_advance 5)

Reach-Answered_example : Answered 5 starting (b'5' ∷ []) [] false false (pos 0)
Reach-Answered_example = Reach-Answered 4 starting (b'5' ∷ []) [] false false (pos 0) (cc) waits

-- `main` has read `STOP` at once
joins : Reach (world joining starting (b'-' ∷ b'2' ∷ []) [] false true (pos 0))
unfolding pipe_send print_int
joins = next (next here (fetch_stop (pos 0))) send_exit

Reach-Exits_example : Exits starting (b'-' ∷ b'2' ∷ []) [] false true (pos 0)
Reach-Exits_example = Reach-Exits starting (b'-' ∷ b'2' ∷ []) [] false true (pos 0) joins

abbrev route : List ℕ → ℤ
route [] = pos 0
route (b ∷ bs) = if b == 9 then negsuc 0 else pos b

-- a pass over three sockets, and a round in which the thread blocks
abbrev two_rounds : List Round
two_rounds =
    (record {
      stop = false;
      ready = polled (packet (1 ∷ []) ∷ not_ready ∷ packet (9 ∷ []) ∷ []);
      later = some [];
    })
    ∷ (record { stop = false; ready = polled (not_ready ∷ []); later = some (nothing_read ∷ []) })
    ∷ []

abbrev answer : Turn
answer = record { reply = codes "120"; stop = false; garbage = pos 1 }

replied : (n : ℕ) → Replied (replicate n answer)
replied zero = tt
replied (suc n) = ((b'1', b'2' ∷ b'0' ∷ [], refl), replied n)

-- rounds of 120 microseconds
abbrev thread : ThreadState
thread = record { curr = pos 0; did = []; sent = []; turns = replicate 30 answer }

abbrev fifty : Cost → Option ℤ
fifty c = some (pos 50)

run_thread-Follows_example :
    Leaves 0 (run_thread fifty route two_rounds thread)
    × Follows starting thread (run_thread fifty route two_rounds thread)
run_thread-Follows_example =
    run_thread-Follows fifty route two_rounds thread (replied 30) (omega arith)

-- the kernel's command of 5 microseconds, when the thread has no socket
dead : Reach (world (fetching (pos 0)) exited [] [] false false (pos 0))
dead = next here fail_start

dead_thread_stuck_example :
    Reach (world (waiting 5) exited (pipe_send (pos 5)) [] false false (pos 0))
    × ((w : World) → ¬ Step (world (waiting 5) exited (pipe_send (pos 5)) [] false false (pos 0)) w)
dead_thread_stuck_example = dead_thread_stuck (pos 0) 5 [] [] false (pos 0) dead
