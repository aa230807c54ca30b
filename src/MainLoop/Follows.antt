-- ===== src/MainLoop/Follows.antt =====
-- The loop of `main` in src/routing/router_app_vt.c against the `main` of Rounds: what the code does
-- round by round is a sequence of that process's steps.
use vt_mechanisms.Word.{◌+int◌}
use vt_mechanisms.Prelude.{
  ℕ, ◌≡◌, refl, ◌∙◌, sym, ap, subst, true, false, List, [], ◌∷◌, ◌++◌, some, if◌then◌else◌,
  get_elem?, inl, inr, ◌⊎◌, append_assoc, append-nil, arith, ℤ, pos, negsuc, ◌≤ℤ◌, ◌==ℤ◌,
  Bool-cases,
}
use vt_mechanisms.Command.{ack_and_get_next_command, clamp_advance, results_text}
use vt_mechanisms.Command.Ends.{parse_commands-total}
use vt_mechanisms.Stub.{pipe_send, pipe_read}
use vt_mechanisms.Rounds.{
  sending, waiting, report, elapse, fetch_advance, fetch_stop, send_exit, see_running, see_blocked,
  send_advance, receive,
}
use vt_mechanisms.Rounds.Progress.{done, ◌then◌}
use vt_mechanisms.MainLoop.{
  MainTurn, MainState, MainOutcome, MainEvent, saw, sent, got, again, left, outside, account,
  order_exit, run_round, main_round, main_loop,
}
use vt_mechanisms.MainLoop.Play.{Sees, Writes, Receives, Skips, Follows, over, exchange, skip, halt}

-- The kernel's texts have a NUL, whatever results it is given, and a read of the pipe a text.
pub record Answers (u : MainTurn) : Type 0 where
  pub nul_at : ℤ → ℕ
  pub nul : (ret : ℤ) → get_elem? ((u.ioctl (results_text ret)).1) (nul_at ret) ≡ some 0
  pub first : ℕ
  pub rest : List ℕ
  pub spoken : u.message ≡ first ∷ rest

abbrev pub AllAnswer : List MainTurn → Type 0
AllAnswer [] = Unit
AllAnswer (u ∷ us) = Answers u × AllAnswer us

-- The next command is the order to stop, or an advance that is not negative.
data Told (u : MainTurn) (ret : ℤ) : Type 0 where
  to_stop : ack_and_get_next_command u.ioctl ret ≡ some (negsuc 0) → Told u ret
  to_run : (adv : ℕ) → ack_and_get_next_command u.ioctl ret ≡ some (pos adv) → Told u ret

command_of :
    (u : MainTurn) (ret r : ℤ)
    → ack_and_get_next_command u.ioctl ret ≡ some r
    → (r ≡ negsuc 0) ⊎ (pos 0 ≤ℤ r)
    → Told u ret
command_of u ret (pos adv) e h = to_run adv e
command_of u ret (negsuc k) e (inl stop) = to_stop (rw e (ap some stop))
command_of u ret (negsuc k) e (inr ge) = absurd (omega arith)

kernel_command : (u : MainTurn) (ret : ℤ) → Answers u → Told u ret
unfolding ack_and_get_next_command clamp_advance
kernel_command u ret a = elim (Bool-cases ((u.ioctl (results_text ret)).0 ==ℤ pos 0)) [
  | inl read ↦
      let (r, e, h) =
        parse_commands-total (u.ioctl (results_text ret)).1 (a.nul_at ret) (a.nul ret) in
      command_of u ret r (rw read e) h
  | inr unread ↦ to_run 100 (rw unread refl)
]

-- Behind the read of a report, the code is where the process of Rounds is.
module _ (adv : ℕ) (ret : ℤ) (s : MainState) where
  ret-account : (account (pos adv) ret s).ret ≡ report ret
  unfolding account report
  ret-account = ground arith

  time-account : (account (pos adv) ret s).time_elapsed ≡ elapse s.time_elapsed adv ret
  unfolding account elapse
  time-account = ground arith

  did-account : (account (pos adv) ret s).did ≡ s.did
  unfolding account
  did-account = ground arith

  stop-account : (account (pos adv) ret s).stop ≡ s.stop
  unfolding account
  stop-account = ground arith

module _ (u : MainTurn) (adv : ℕ) (s : MainState) (a : Answers u) where
  sees : Sees s.ret adv s.time_elapsed
  sees t i o stop = fetch_advance s.ret adv then see_running adv then done

  sends : Writes (sending adv) (pipe_send (pos adv)) (waiting adv) s.time_elapsed
  sends t i o b stop = send_advance adv then done

  receives :
      Receives adv s.time_elapsed u.message
        (report (pipe_read u.message))
        (elapse s.time_elapsed adv (pipe_read u.message))
  receives t i b stop = rw a.spoken (receive adv a.first a.rest then done)

  skips : Skips s.ret s.time_elapsed (pos 0) (s.time_elapsed +int pos adv)
  skips t i o stop = fetch_advance s.ret adv then see_blocked adv then done

  exchanged : List MainEvent
  exchanged = saw false ∷ sent (pipe_send (pos adv)) ∷ got u.message ∷ []

  working_round : MainState
  working_round = account (pos adv) (pipe_read u.message) (record s { did = s.did ++ exchanged })

  skipped_round : MainState
  skipped_round = record s {
    time_elapsed = s.time_elapsed +int pos adv;
    ret = pos 0;
    did = s.did ++ saw true ∷ [];
  }

  run_round-working : u.is_blocked ≡ false → run_round u (pos adv) s ≡ working_round
  unfolding run_round working_round exchanged
  run_round-working h = rw h refl

  run_round-blocked : u.is_blocked ≡ true → run_round u (pos adv) s ≡ skipped_round
  unfolding run_round skipped_round
  run_round-blocked h = rw h refl

  writes :
      (log to : List MainEvent) → to ≡ working_round.did ++ log → to ≡ s.did ++ (exchanged ++ log)
  unfolding working_round exchanged
  writes log to e =
      e
      ∙ ap (λ l. l ++ log) (did-account adv (pipe_read u.message) _)
      ∙ append_assoc s.did exchanged log

  -- a round with an advance, and the rest of a run
  exchange_round :
      u.is_blocked ≡ false
      → (us : List MainTurn) (o : MainOutcome) → Follows us working_round o
      → Follows (u ∷ us) s o
  unfolding working_round exchanged
  exchange_round h us (again s') (log, e, p, stop) = (
    saw false ∷ sent (pipe_send (pos adv)) ∷ got u.message ∷ log,
    writes log s'.did e,
    exchange adv _ _ h sees sends (rw (ret-account, time-account) receives) p,
    stop ∙ stop-account adv _ _,
  )
  exchange_round h us (left s') (log, e, p, stop) = (
    saw false ∷ sent (pipe_send (pos adv)) ∷ got u.message ∷ log,
    writes log s'.did e,
    exchange adv _ _ h sees sends (rw (ret-account, time-account) receives) p,
    stop,
  )
  exchange_round h us outside f = f

  skip_round :
      u.is_blocked ≡ true
      → (us : List MainTurn) (o : MainOutcome) → Follows us skipped_round o
      → Follows (u ∷ us) s o
  unfolding skipped_round
  skip_round h us (again s') (log, e, p, stop) =
      (saw true ∷ log, e ∙ append_assoc s.did (saw true ∷ []) log, skip _ _ h skips p, stop)
  skip_round h us (left s') (log, e, p, stop) =
      (saw true ∷ log, e ∙ append_assoc s.did (saw true ∷ []) log, skip _ _ h skips p, stop)
  skip_round h us outside f = f

  advance_round :
      (us : List MainTurn) (o : MainOutcome)
      → Follows us (run_round u (pos adv) s) o
      → Follows (u ∷ us) s o
  advance_round us o f = elim (Bool-cases u.is_blocked) [
    | inl blocked ↦
        skip_round blocked us o (subst (λ s'. Follows us s' o) (run_round-blocked blocked) f)
    | inr working ↦
        exchange_round working us o (subst (λ s'. Follows us s' o) (run_round-working working) f)
  ]

advance-ne-stop : (adv : ℕ) → (pos adv ==ℤ negsuc 0) ≡ false
advance-ne-stop adv = ground arith

module _ (u : MainTurn) (us : List MainTurn) (s : MainState) where
  main_loop-run :
      (adv : ℕ)
      → ack_and_get_next_command u.ioctl s.ret ≡ some (pos adv)
      → main_loop us (run_round u (pos adv) s) ≡ main_loop (u ∷ us) s
  unfolding main_round main_loop
  main_loop-run adv e = rw (e, main_loop) (rw (advance-ne-stop adv) refl)

  main_loop-stop :
      ack_and_get_next_command u.ioctl s.ret ≡ some (negsuc 0)
      → left (order_exit s) ≡ main_loop (u ∷ us) s
  unfolding main_round main_loop
  main_loop-stop e = rw (e, main_loop) refl

  stop_round : Follows (u ∷ us) s (left (order_exit s))
  unfolding order_exit
  stop_round = (
    _,
    refl,
    halt (λ t i o b stop. fetch_stop s.ret then done) (λ t i o b stop. send_exit then done),
    refl,
  )

-- A run of the loop of `main` does not read a command outside its buffer, if each has a NUL. It plays,
-- round by round, the `main` of the rounds: what it does to the pipes and flags is what a sequence of
-- that process's steps does, for every state of the thread, with the same clock and report, and where
-- the code leaves the loop the process waits for the thread's end, and the flag is set.
pub main_loop-Follows :
    (us : List MainTurn) (s : MainState) → AllAnswer us → Follows us s (main_loop us s)
unfolding main_loop
main_loop-Follows [] s a = ([], sym (append-nil s.did), over, refl)
main_loop-Follows (u ∷ us) s (a, as') = elim (kernel_command u s.ret a) [
  | to_stop e ↦ subst (Follows (u ∷ us) s) (main_loop-stop u us s e) (stop_round u us s)
  | to_run adv e ↦
      subst (Follows (u ∷ us) s) (main_loop-run u us s adv e)
        (advance_round u adv s a us _ (main_loop-Follows us (run_round u (pos adv) s) as'))
]
