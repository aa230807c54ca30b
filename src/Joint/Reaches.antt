-- ===== src/Joint/Reaches.antt =====
-- The codes of `main` and of `process_thread` run together stay within what the rounds can reach.
use vt_mechanisms.Prelude.{ℕ, ◌≤◌, length, List, [], Option, ℤ, pos}
use vt_mechanisms.Stub.{Cost}
use vt_mechanisms.Rounds.{
  Main, Thread, World, fetching, joining, running, exited, starting, Reach, here, next,
}
use vt_mechanisms.Rounds.Progress.{Steps, done, ◌then◌}
use vt_mechanisms.MainLoop.{
  MainEvent, MainTurn, MainOutcome, again, left, outside, main_loop, loop_entry,
}
use vt_mechanisms.MainLoop.Play as MainPlay
use vt_mechanisms.RouterThread.{
  ThreadEvent, ThreadState, Outcome, going, finished, repeat, no_turn, Turn, Round, run_thread,
}
use vt_mechanisms.RouterThread.Play as ThreadPlay
use vt_mechanisms.RouterThread.Whole.{run_thread-Follows}
use vt_mechanisms.RouterThread.Enough.{run_calls}
use vt_mechanisms.MainLoop.Follows.{AllAnswer}
use vt_mechanisms.MainLoop.Follows.{main_loop-Follows}
use vt_mechanisms.RouterThread.Play.{Replied}
use vt_mechanisms.Joint.{Shared, at_start, Joint, pause, main_acts, thread_acts}
use vt_mechanisms.Joint.Ways.{
  at, Steps-append, MainWay, stays, acts, ThreadWay, idles, does, nothing,
}
use vt_mechanisms.Joint.Accesses.{main_way, thread_way}

-- Where both sides pause in a joint run, by what each has left to do.
abbrev Paused :
    Main
    → Thread
    → Shared
    → ℤ
    → Shared
    → List MainEvent
    → List ThreadEvent
    → Main
    → ℤ
    → Thread
    → Type 0
Paused m t sh time sh' ms ts m'' time'' t'' =
    (m' : Main) × (t' : Thread) × (time' : ℤ) × Steps (at m t sh time) (at m' t' sh' time')
    × MainWay m' time' ms m'' time''
    × ThreadWay t' ts t''

Joint-Paused :
    {m m'' : Main} {t t'' : Thread} {time time'' : ℤ} {sh sh' : Shared} {ms ms' : List MainEvent}
    {ts ts' : List ThreadEvent}
    → MainWay m time ms m'' time''
    → ThreadWay t ts t''
    → Joint sh ms ts sh' ms' ts'
    → Paused m t sh time sh' ms' ts' m'' time'' t''
Joint-Paused v w pause = (_, _, _, done, v, w)
Joint-Paused {t = t} (acts f v) w (main_acts {sh = sh} {sh'} a j) =
    let (m', t', time', p, v', w') = Joint-Paused v w j in
    (m', t', time', Steps-append (f t sh sh' a) p, v', w')
Joint-Paused {m} {time = time} v (does f w) (thread_acts {sh = sh} {sh'} a j) =
    let (m', t', time', p, v', w') = Joint-Paused v w j in
    (m', t', time', Steps-append (f m time sh sh' a) p, v', w')

-- Where a run of a code ends, and what it did.
abbrev pub main_at : MainOutcome → Main
main_at (again s) = fetching s.ret
main_at (left s) = joining
main_at outside = joining

abbrev pub main_time : MainOutcome → ℤ
main_time (again s) = s.time_elapsed
main_time (left s) = s.time_elapsed
main_time outside = pos 0

abbrev pub main_log : MainOutcome → List MainEvent
main_log (again s) = s.did
main_log (left s) = s.did
main_log outside = []

abbrev pub thread_at : {A : Type 0} → Outcome A → Thread
thread_at (going a s) = running s.curr
thread_at (repeat s) = running s.curr
thread_at (finished s) = exited
thread_at no_turn = starting

abbrev pub thread_log : {A : Type 0} → Outcome A → List ThreadEvent
thread_log (going a s) = s.did
thread_log (repeat s) = s.did
thread_log (finished s) = s.did
thread_log no_turn = []

-- the thread at its first call of `update_stub`, with the turns to come
abbrev pub thread_entry : List Turn → ThreadState
thread_entry turns = record { curr = pos 0; did = []; sent = []; turns = turns }

main_goes :
    (us : List MainTurn) (o : MainOutcome)
    → MainPlay.Follows us loop_entry o
    → MainWay (fetching (pos 0)) (pos 0) (main_log o) (main_at o) (main_time o)
main_goes us (again s) (log, e, p, stop) = rw e (main_way p)
main_goes us (left s) (log, e, p, stop) = rw e (main_way p)
main_goes us outside f = absurd f

thread_goes :
    {A : Type 0} (turns : List Turn) (o : Outcome A)
    → ThreadPlay.Follows starting (thread_entry turns) o
    → ThreadWay starting (thread_log o) (thread_at o)
thread_goes turns (going a s) (us, log, e, f, p) = rw f (thread_way p)
thread_goes turns (repeat s) (us, log, e, f, p) = rw f (thread_way p)
thread_goes turns (finished s) (us, log, e, f, p) = rw f (thread_way p)
thread_goes turns no_turn f = nothing

Reach-Steps : {w w' : World} → Reach w → Steps w w' → Reach w'
Reach-Steps r done = r
Reach-Steps r (step then p) = Reach-Steps (next r step) p

-- the world at the end of a joint run, when both sides have done all
Paused-end :
    (m m'' : Main) (t t'' : Thread) (sh sh' : Shared) (time time'' : ℤ)
    → Paused m t sh time sh' [] [] m'' time'' t''
    → Steps (at m t sh time) (at m'' t'' sh' time'')
Paused-end m m'' t t'' sh sh' time time'' (m', t', time', p, stays, idles f) =
    Steps-append p (f m' time' sh')

module _ (times : Cost → Option ℤ) (route : List ℕ → ℤ) (us : List MainTurn) (rounds : List Round)
    (turns : List Turn) (answers : AllAnswer us) (replied : Replied turns)
    (enough : run_calls rounds ≤ length turns) where
  main_run : MainOutcome
  main_run = main_loop us loop_entry

  thread_run : Outcome (Unit {0})
  thread_run = run_thread times route rounds (thread_entry turns)

  joint-Paused :
      {sh : Shared} {ms : List MainEvent} {ts : List ThreadEvent}
      → Joint at_start (main_log main_run) (thread_log thread_run) sh ms ts
      → Paused
          (fetching (pos 0))
          starting
          at_start
          (pos 0)
          sh
          ms
          ts
          (main_at main_run)
          (main_time main_run)
          (thread_at thread_run)
  unfolding main_run thread_run
  joint-Paused j =
      Joint-Paused (main_goes us main_run (main_loop-Follows us loop_entry answers))
        (thread_goes turns thread_run
          (run_thread-Follows times route rounds (thread_entry turns) replied enough).1)
        j

  -- Wherever a joint run of both codes pauses, a state of the rounds with these pipes and flags can
  -- be reached.
  pub pause-Reach :
      (sh : Shared) (ms : List MainEvent) (ts : List ThreadEvent)
      → Joint at_start
          (main_log (main_loop us loop_entry))
          (thread_log (run_thread times route rounds (thread_entry turns)))
          sh
          ms
          ts
      → (m : Main) × (t : Thread) × (time : ℤ) × Reach (at m t sh time)
  unfolding main_run thread_run
  pause-Reach sh ms ts j =
      let (m, t, time, p, v', w') = joint-Paused j in (m, t, time, Reach-Steps here p)

  -- When the codes of `main`, whose commands have a NUL, and of the thread, which is given turns enough,
  -- run together over the pipes and flags, in any order of their accesses, and both have done all that
  -- they do, then the rounds can reach the world that they are in, with the same pipes and flags and
  -- the clock of `main`.
  pub Joint-Reach :
      (sh : Shared)
      → Joint at_start
          (main_log (main_loop us loop_entry))
          (thread_log (run_thread times route rounds (thread_entry turns)))
          sh
          []
          []
      → Reach (
          at
            (main_at (main_loop us loop_entry))
            (thread_at (run_thread times route rounds (thread_entry turns)))
            sh
            (main_time (main_loop us loop_entry)))
  unfolding main_run thread_run
  Joint-Reach sh j =
      Reach-Steps here
        (Paused-end (fetching (pos 0)) _ starting _ at_start sh (pos 0) _ (joint-Paused j))
