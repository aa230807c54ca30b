-- ===== src/Joint.antt =====
-- `main` and `process_thread` of src/routing run together over the pipes and flags that they share:
-- what each does to these, in its own order, and in any interleaving of the two.
pub mod Ways
pub mod Accesses
pub mod Reaches
pub mod Pipes
use vt_mechanisms.Prelude.{ℕ, Bool, true, false, List, [], ◌∷◌, ◌++◌}
use vt_mechanisms.MainLoop.{MainEvent, saw, sent, got, ordered}
use vt_mechanisms.RouterThread.{ThreadEvent, looked, began, said, heard, raised, woke}

-- The two pipes, `args.is_blocked` and `args.stop`. A pipe is the text written and not yet read.
pub data Shared : Type 0 where
  shared : (main_to_thread thread_to_main : List ℕ) → (is_blocked stop : Bool) → Shared

-- `main` at the head of its loop, the thread before its first call of `update_stub`
abbrev pub at_start : Shared
at_start = shared [] [] false false

-- What an access of `main` finds, and what it leaves.
pub data MainAccess : MainEvent → Shared → Shared → Type 0 where
  sees : {i o : List ℕ} {b s : Bool} → MainAccess (saw b) (shared i o b s) (shared i o b s)
  sends :
      {i o : List ℕ} {b s : Bool} {text : List ℕ}
      → MainAccess (sent text) (shared i o b s) (shared (i ++ text) o b s)
  gets :
      {i text : List ℕ} {b s : Bool} → MainAccess (got text) (shared i text b s) (shared i [] b s)
  orders : {i o : List ℕ} {b s : Bool} → MainAccess ordered (shared i o b s) (shared i o b true)

-- The same for the thread. The flag is as tested behind a read.
pub data ThreadAccess : ThreadEvent → Shared → Shared → Type 0 where
  looks : {i o : List ℕ} {b s : Bool} → ThreadAccess (looked s) (shared i o b s) (shared i o b s)
  begins :
      {text o : List ℕ} {b s : Bool}
      → ThreadAccess (began text) (shared text o b s) (shared [] o b s)
  says :
      {i o : List ℕ} {b s : Bool} {text : List ℕ}
      → ThreadAccess (said text) (shared i o b s) (shared i (o ++ text) b s)
  hears :
      {text o : List ℕ} {b s : Bool}
      → ThreadAccess (heard text s) (shared text o b s) (shared [] o b s)
  raises : {i o : List ℕ} {b s : Bool} → ThreadAccess raised (shared i o b s) (shared i o true s)
  wakes : {i o : List ℕ} {b s : Bool} → ThreadAccess woke (shared i o b s) (shared i o false s)

-- The two sides run with what they have to do, one access of either at a time, and stop anywhere, with
-- what is left to do.
pub data Joint
    : Shared
      → List MainEvent
      → List ThreadEvent
      → Shared
      → List MainEvent
      → List ThreadEvent
      → Type 0 where
  pause : {sh : Shared} {ms : List MainEvent} {ts : List ThreadEvent} → Joint sh ms ts sh ms ts
  main_acts :
      {e : MainEvent} {sh sh' sh'' : Shared} {ms ms' : List MainEvent} {ts ts' : List ThreadEvent}
      → MainAccess e sh sh'
      → Joint sh' ms ts sh'' ms' ts'
      → Joint sh (e ∷ ms) ts sh'' ms' ts'
  thread_acts :
      {e : ThreadEvent} {sh sh' sh'' : Shared} {ms ms' : List MainEvent} {ts ts' : List ThreadEvent}
      → ThreadAccess e sh sh'
      → Joint sh' ms ts sh'' ms' ts'
      → Joint sh ms (e ∷ ts) sh'' ms' ts'
