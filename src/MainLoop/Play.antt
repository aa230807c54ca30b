-- ===== src/MainLoop/Play.antt =====
-- The `main` of Rounds as the loop of src/routing/router_app_vt.c goes through it, round by round.
use vt_mechanisms.Prelude.{ℕ, ◌≡◌, Bool, true, false, List, [], ◌∷◌, ◌++◌, ℤ, pos}
use vt_mechanisms.Stub.{thread_exiting, pipe_send}
use vt_mechanisms.Rounds.{Main, Thread, fetching, sending, stopping, waiting, joining, world}
use vt_mechanisms.Rounds.Progress.{Steps}
use vt_mechanisms.MainLoop.{
  MainTurn, MainState, MainOutcome, MainEvent, saw, sent, got, ordered, again, left, outside,
}

-- `main` asks for a command, and sees that the thread is not blocked
abbrev pub Sees : ℤ → ℕ → ℤ → Type 0
Sees ret adv time =
    (t : Thread) (i o : List ℕ) (s : Bool)
    → Steps (world (fetching ret) t i o false s time) (world (sending adv) t i o false s time)

-- `main` writes a text to the thread
abbrev pub Writes : Main → List ℕ → Main → ℤ → Type 0
Writes m text m' time =
    (t : Thread) (i o : List ℕ) (b s : Bool)
    → Steps (world m t i o b s time) (world m' t (i ++ text) o b s time)

-- `main` reads a text of the thread
abbrev pub Receives : ℕ → ℤ → List ℕ → ℤ → ℤ → Type 0
Receives adv time text ret' time' =
    (t : Thread) (i : List ℕ) (b s : Bool)
    → Steps (world (waiting adv) t i text b s time) (world (fetching ret') t i [] b s time')

-- `main` asks for a command, and the thread is blocked
abbrev pub Skips : ℤ → ℤ → ℤ → ℤ → Type 0
Skips ret time ret' time' =
    (t : Thread) (i o : List ℕ) (s : Bool)
    → Steps (world (fetching ret) t i o true s time) (world (fetching ret') t i o true s time')

-- `main` is told to stop, and sets the flag
abbrev pub Orders : ℤ → ℤ → Type 0
Orders ret time =
    (t : Thread) (i o : List ℕ) (b s : Bool)
    → Steps (world (fetching ret) t i o b s time) (world stopping t i o b true time)

-- The way of `main` through some rounds, with what it does to the pipes and flags. Between two of
-- these the thread may do as it likes.
pub data Play : ℤ → ℤ → List MainTurn → List MainEvent → Main → ℤ → Type 0 where
  over : {ret time : ℤ} → Play ret time [] [] (fetching ret) time
  exchange :
      {ret time : ℤ} {u : MainTurn} {us : List MainTurn} {log : List MainEvent} {m : Main}
      {time'' : ℤ} (adv : ℕ) (ret' time' : ℤ)
      → u.is_blocked ≡ false
      → Sees ret adv time
      → Writes (sending adv) (pipe_send (pos adv)) (waiting adv) time
      → Receives adv time u.message ret' time'
      → Play ret' time' us log m time''
      → Play ret time
          (u ∷ us)
          (saw false ∷ sent (pipe_send (pos adv)) ∷ got u.message ∷ log)
          m
          time''
  skip :
      {ret time : ℤ} {u : MainTurn} {us : List MainTurn} {log : List MainEvent} {m : Main}
      {time'' : ℤ} (ret' time' : ℤ)
      → u.is_blocked ≡ true
      → Skips ret time ret' time'
      → Play ret' time' us log m time''
      → Play ret time (u ∷ us) (saw true ∷ log) m time''
  -- the rounds behind the stop are not run
  halt :
      {ret time : ℤ} {us : List MainTurn}
      → Orders ret time
      → Writes stopping (pipe_send thread_exiting) joining time
      → Play ret time us (ordered ∷ sent (pipe_send thread_exiting) ∷ []) joining time

-- where `main` of Rounds stands at the end of a run of the code
abbrev pub Follows : List MainTurn → MainState → MainOutcome → Type 0
Follows us s (again s') =
    (log : List MainEvent) × (s'.did ≡ s.did ++ log)
    × Play s.ret s.time_elapsed us log (fetching s'.ret) s'.time_elapsed
    × (s'.stop ≡ s.stop)
Follows us s (left s') =
    (log : List MainEvent) × (s'.did ≡ s.did ++ log)
    × Play s.ret s.time_elapsed us log joining s'.time_elapsed
    × (s'.stop ≡ true)
Follows us s outside = ⊥
