-- ===== src/MainLoop.antt =====
-- The loop of `main` in src/routing/router_app_vt.c under `APP_VT`: it asks the kernel module for an
-- advance, hands it to the thread and reads the thread's report. `ioctl`, `args.is_blocked` and the
-- text that a blocking `read` returns are given for each round.
pub mod Play
pub mod Follows
use vt_mechanisms.Word.{◌+int◌}
use vt_mechanisms.Prelude.{
  ℕ, Bool, true, false, not, List, [], ◌∷◌, ◌++◌, Option, none, some, if◌then◌else◌, ℤ, pos, negsuc,
  leb_ℤ, ◌==ℤ◌,
}
use vt_mechanisms.Command.{ack_and_get_next_command}
use vt_mechanisms.Stub.{thread_blocked, thread_exiting, pipe_send, pipe_read}

-- What the other side decides for one round: the kernel's answer to a text of results, the value of
-- `args.is_blocked` where it is tested, and the text on the pipe from the thread.
pub record MainTurn : Type 0 where
  pub ioctl : List ℕ → ℤ × List ℕ
  pub is_blocked : Bool
  pub message : List ℕ

-- What `main` does to the pipes and flags that it shares with the thread, one access at a time.
pub data MainEvent : Type 0 where
  -- `args.is_blocked` is read
  saw : (is_blocked : Bool) → MainEvent
  sent : (text : List ℕ) → MainEvent
  got : (text : List ℕ) → MainEvent
  -- `args.stop` is set
  ordered : MainEvent

-- The variables of `main` that live across rounds, `args.stop`, and what it did to pipes and flags.
pub record MainState : Type 0 where
  pub ret : ℤ
  pub time_elapsed : ℤ
  pub stop : Bool
  pub did : List MainEvent

-- `main` comes back to the head of the loop, has left it by `break`, or has read a command outside
-- its buffer.
pub data MainOutcome : Type 0 where
  again left : MainState → MainOutcome
  outside : MainOutcome

-- behind `ret = pipe_read(..)`
unfoldable pub account : (per_round_advance ret : ℤ) → MainState → MainState
unfolding ◌+int◌
account per_round_advance ret s =
    if ret ==ℤ thread_blocked
    then record s { time_elapsed = s.time_elapsed +int per_round_advance; ret = pos 0 }
    else if leb_ℤ (pos 0) ret
    then record s { time_elapsed = s.time_elapsed +int ret +int per_round_advance; ret = ret }
    else record s { ret = pos 0 }

-- what a round with an advance does to pipes and flags
abbrev pub round_events : MainTurn → ℤ → List MainEvent
round_events u per_round_advance =
    if not u.is_blocked
    then saw false ∷ sent (pipe_send per_round_advance) ∷ got u.message ∷ []
    else saw true ∷ []

-- `args.stop = 1; pipe_send(.., THREAD_EXITING)`
unfoldable pub order_exit : MainState → MainState
unfolding pipe_send
order_exit s = record s {
  stop = true;
  did = s.did ++ ordered ∷ sent (pipe_send thread_exiting) ∷ [];
}

-- A round with an advance, by the test of `args.is_blocked`.
unfoldable pub run_round : MainTurn → ℤ → MainState → MainState
unfolding account pipe_read pipe_send ◌+int◌
run_round u per_round_advance s =
    let s' : MainState = record s { did = s.did ++ round_events u per_round_advance } in
    if not u.is_blocked
    then account per_round_advance (pipe_read u.message) s'
    else record s' { time_elapsed = s.time_elapsed +int per_round_advance; ret = pos 0 }

unfoldable pub main_round : MainTurn → MainState → MainOutcome
unfolding ack_and_get_next_command run_round order_exit
main_round u s = elim (ack_and_get_next_command u.ioctl s.ret) [
  | none ↦ outside
  | some per_round_advance ↦
      if per_round_advance ==ℤ negsuc 0
      then left (order_exit s)
      else again (run_round u per_round_advance s)
]

unfoldable pub main_loop : List MainTurn → MainState → MainOutcome
unfolding main_round
main_loop [] s = again s
main_loop (u ∷ us) s = elim (main_round u s) [
  | again s' ↦ main_loop us s'
  | left s' ↦ left s'
  | outside ↦ outside
]

-- `main` in front of the loop
abbrev pub loop_entry : MainState
loop_entry = record { ret = pos 0; time_elapsed = pos 0; stop = false; did = [] }
