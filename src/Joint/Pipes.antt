-- ===== src/Joint/Pipes.antt =====
-- What the two pipes hold while the codes of `main` and of `process_thread` run together.
use vt_mechanisms.Prelude.{ℕ, ◌≤◌, length, List, Option, ℤ}
use vt_mechanisms.Stub.{Cost}
use vt_mechanisms.Rounds.{Main, Thread, Reach}
use vt_mechanisms.Rounds.Messages.{OneMessage, Reach-OneMessage}
use vt_mechanisms.MainLoop.{MainEvent, MainTurn, main_loop, loop_entry}
use vt_mechanisms.MainLoop.Follows.{AllAnswer}
use vt_mechanisms.RouterThread.{ThreadEvent, Turn, Round, run_thread}
use vt_mechanisms.RouterThread.Play.{Replied}
use vt_mechanisms.RouterThread.Enough.{run_calls}
use vt_mechanisms.Joint.{Shared, shared, at_start, Joint}
use vt_mechanisms.Joint.Ways.{at}
use vt_mechanisms.Joint.Reaches.{main_log, thread_log, thread_entry, pause-Reach}

abbrev pub OneShared : Shared → Type 0
OneShared (shared i o b s) = OneMessage i o s

Reach-OneShared :
    (m : Main) (t : Thread) (time : ℤ) (sh : Shared) → Reach (at m t sh time) → OneShared sh
Reach-OneShared m t time (shared i o b s) r = Reach-OneMessage m t i o b s time r

-- When the codes of `main`, whose commands have a NUL, and of the thread, which is given turns enough,
-- run together over the pipes and flags, in any order of their accesses, and pause anywhere, then one
-- message at most is on its way: a command to the thread, which is an advance or, once `stop` is set,
-- the order to exit, or a report to `main`.
pub Joint-OneShared :
    (times : Cost → Option ℤ) (route : List ℕ → ℤ) (us : List MainTurn) (rounds : List Round)
    (turns : List Turn)
    → AllAnswer us
    → Replied turns
    → run_calls rounds ≤ length turns
    → (sh : Shared) (ms : List MainEvent) (ts : List ThreadEvent)
    → Joint at_start
        (main_log (main_loop us loop_entry))
        (thread_log (run_thread times route rounds (thread_entry turns)))
        sh
        ms
        ts
    → OneShared sh
Joint-OneShared times route us rounds turns answers replied enough sh ms ts j =
    let (m, t, time, r) =
      pause-Reach times route us rounds turns answers replied enough sh ms ts j in
    Reach-OneShared m t time sh r
