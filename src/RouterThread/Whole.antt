-- ===== src/RouterThread/Whole.antt =====
-- The whole thread of src/routing/utils.c, from its first call of `update_stub` on, against the
-- thread of Rounds.
use vt_mechanisms.Prelude.{
  ◌++◌, ℕ, ◌≡◌, refl, subst, Bool, true, false, ◌||◌, List, [], ◌∷◌, Option, ℤ, inl, inr,
}
use vt_mechanisms.Stub.{Cost, pipe_read}
use vt_mechanisms.Rounds.{Thread, running}
use vt_mechanisms.RouterThread.{
  began, ThreadState, Outcome, going, finished, repeat, no_turn, guard_stub, with_turn,
  thread_round,
}
use vt_mechanisms.RouterThread.Sends.{nil_or_cons}
use vt_mechanisms.RouterThread.Play.{
  Replied, Ran, Follows, Refines, Follows-bind, tested, Ran-Follows, Replied-rest,
}
use vt_mechanisms.Rounds.{starting, after_first}
use vt_mechanisms.RouterThread.{Round, thread_loop, run_thread, start}
use vt_mechanisms.RouterThread.Turns.{first_turn, stub_value-if}
use vt_mechanisms.Stub.{update_stub_first}
use vt_mechanisms.RouterThread.Refines.{stays-Refines, round-Refines}
use vt_mechanisms.RouterThread.Enough.{Leaves, run_calls, run_thread-Leaves}
use vt_mechanisms.Prelude.{◌≤◌, length}

or-false : (b : Bool) → (b || false) ≡ b
or-false true = refl
or-false false = refl

pub start-Follows : (s : ThreadState) → Replied s.turns → Follows starting s (start s)
unfolding start guard_stub update_stub_first after_first
start-Follows s r = elim (nil_or_cons s.turns) [
  | inl none_left ↦ rw (none_left, with_turn) tt
  | inr (u, ts, more) ↦
      let (d, rest, whole) = (subst Replied more r).0 in
      let s' : ThreadState = record s {
        curr = pipe_read u.reply;
        did = s.did ++ began u.reply ∷ [];
        turns = ts;
      } in
      simp (more, with_turn)
        (tested starting s s' u (began u.reply ∷ []) _ more refl
          (rw (stub_value-if, or-false) (first_turn u.reply d rest whole u.stop)))
]

module _ (times : Cost → Option ℤ) (route : List ℕ → ℤ) where
  after_round :
      (t : Thread) (s : ThreadState) (rs : List Round) (o : Outcome (Unit {0}))
      → ((s' : ThreadState)
          → Ran t s (running s'.curr) s'
          → Follows t s (thread_loop times route rs s'))
      → Follows t s o
      → Follows {A = Unit {0}} t s (elim o [
        | going a s' ↦ thread_loop times route rs s'
        | finished s' ↦ finished s'
        | repeat s' ↦ thread_loop times route rs s'
        | no_turn ↦ no_turn
      ])
  after_round t s rs (going a s') more ran = more s' ran
  after_round t s rs (finished s') more ran = ran
  after_round t s rs (repeat s') more ran = more s' ran
  after_round t s rs no_turn more ran = tt

  loop-Refines : (rounds : List Round) → Refines (thread_loop times route rounds)
  unfolding thread_loop
  loop-Refines [] = stays-Refines
  loop-Refines (r ∷ rs) = λ s replied.
      after_round (running s.curr) s rs (thread_round times route r.stop r.ready r.later s)
        (λ s' ran.
          Ran-Follows s s' (thread_loop times route rs s') ran
            (loop-Refines rs s' (Replied-rest ran.0 s'.turns (subst Replied ran.2 replied))))
        (round-Refines times route r.stop r.ready r.later s replied)

  -- A thread whose reads return texts and which is given a turn for each of its reads and tests does
  -- not run out of turns, and plays, turn by turn, the thread of the rounds: what it did to the
  -- pipes and flags, in this order, is what a sequence of that thread's steps does over the turns
  -- that are used up, for every state of `main`, and it ends at work with the same time left, or
  -- exited.
  pub run_thread-Follows :
      (rounds : List Round) (s : ThreadState)
      → Replied s.turns
      → run_calls rounds ≤ length s.turns
      → Leaves 0 (run_thread times route rounds s)
        × Follows starting s (run_thread times route rounds s)
  unfolding run_thread
  run_thread-Follows rounds s r le = (
    run_thread-Leaves times route rounds s le,
    Follows-bind starting s (start s) (λ _. thread_loop times route rounds) r (start-Follows s r)
        λ _. loop-Refines rounds,
  )
