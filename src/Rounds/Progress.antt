-- ===== src/Rounds/Progress.antt =====
-- Whether a round that `main` waits for can still be answered, and an order to exit obeyed.
use vt_mechanisms.Prelude.{zero, ◌-◌, ◌≤◌, sym, Bool-cases}
use vt_mechanisms.Stub.{cost_us, poll}
use vt_mechanisms.Rounds.{charge, charge_undefined, fail_start, fail_poll, fail_polling}
use vt_mechanisms.Prelude.{
  ℕ, suc, ◌+◌, ◌≡◌, refl, ◌∙◌, ap, subst, ◌≢◌, inl, inr, Bool, true, false, List, [], ◌∷◌, arith, ℤ,
  pos, negsuc, ◌-ℤ◌, leb_ℤ, if◌then◌else◌,
}
use vt_mechanisms.Decimal.{print_int}
use vt_mechanisms.Decimal.RoundTrip.{print_nat-first}
use vt_mechanisms.Stub.{thread_blocked, thread_exiting, pipe_send, pipe_read}
use vt_mechanisms.Rounds.{
  fetching, waiting, joining, Thread, starting, awaiting, resuming, running, announcing, polling,
  exited, World, world, after_reply, after_first, Step, receive, first_reply, finish_round, reply,
  announce, wake, resume, Reach,
}
use vt_mechanisms.Rounds.Invariant.{pipe_read-pipe_send, During, Ending, Reach-Inv}

infixr 5 ◌then◌
-- a sequence of steps
pub data Steps : World → World → Type 0 where
  done : {w : World} → Steps w w
  ◌then◌ : {w w' w'' : World} → Step w w' → Steps w' w'' → Steps w w''

-- A step in which a call costs what the tables of the program hold, and which no failing system call
-- and no indeterminate value brings about.
abbrev pub IsCharged : {w w' : World} → Step w w' → Type 0
IsCharged (finish_round curr cost over h e) = cost ≡ cost_us poll
IsCharged (charge curr cost h) = cost ≡ cost_us poll
IsCharged (charge_undefined curr cost h) = ⊥
IsCharged fail_start = ⊥
IsCharged (fail_poll curr) = ⊥
IsCharged fail_polling = ⊥
IsCharged _ = Unit

abbrev pub AllCharged : {w w' : World} → Steps w w' → Type 0
AllCharged done = Unit
AllCharged (step then steps) = IsCharged step × AllCharged steps

-- `main` comes to ask for the next command, with both pipes empty, by such steps
abbrev pub Answered : ℕ → Thread → List ℕ → List ℕ → Bool → Bool → ℤ → Type 0
Answered adv t i o b s time =
    (ret : ℤ) × (t' : Thread) × (b' : Bool) × (time' : ℤ) × (steps : Steps
      (world (waiting adv) t i o b s time) (world (fetching ret) t' [] [] b' s time'))
    × AllCharged steps

by_step :
    {adv : ℕ} {t t' : Thread} {i i' o o' : List ℕ} {b b' s : Bool} {time : ℤ}
    (step : Step (world (waiting adv) t i o b s time) (world (waiting adv) t' i' o' b' s time))
    → IsCharged step
    → Answered adv t' i' o' b' s time
    → Answered adv t i o b s time
by_step step ok (ret, t, b, time, steps, all) = (ret, t, b, time, step then steps, (ok, all))

pipe_send-cons : (m : ℤ) → (c : ℕ) × (rest : List ℕ) × (pipe_send m ≡ c ∷ rest)
unfolding pipe_send print_int
pipe_send-cons (pos n) = let (d, s, e, le) = print_nat-first n n (omega arith) in (b'0' + d, s, e)
pipe_send-cons (negsuc n) = (b'-', _, refl)

-- one call of `cost_us` from a time
small : (k : ℕ) → k ≤ 0 → leb_ℤ (pos k -ℤ cost_us poll) (pos 0) ≡ true
unfolding ◌-ℤ◌
small k le = ground arith

less :
    (k : ℕ) → leb_ℤ (pos k -ℤ cost_us poll) (pos 0) ≡ false → pos k -ℤ cost_us poll ≡ pos (k - 50)
unfolding ◌-ℤ◌
less k left = ground arith

shorter : (k n : ℕ) → leb_ℤ (pos k -ℤ cost_us poll) (pos 0) ≡ false → k ≤ suc n → k - 50 ≤ n
unfolding ◌-ℤ◌
shorter k n left le = ground arith

below : (k : ℕ) → leb_ℤ (negsuc k -ℤ cost_us poll) (pos 0) ≡ true
unfolding ◌-ℤ◌
below k = ground arith

module _ (adv : ℕ) (s : Bool) where
  hear : (t : Thread) (b : Bool) (time m : ℤ) → Answered adv t [] (pipe_send m) b s time
  hear t b time m =
      let (c, rest, e) = pipe_send-cons m in
      rw e (_, t, b, _, receive adv c rest then done, (tt, tt))

  -- a call that uses the time up
  last_call :
      (b : Bool) (time curr : ℤ)
      → leb_ℤ (curr -ℤ cost_us poll) (pos 0) ≡ true
      → Answered adv (running curr) [] [] b s time
  last_call b time curr h =
      by_step (finish_round curr (cost_us poll) _ h refl) refl
        (hear awaiting b time (pos 0 -ℤ (curr -ℤ cost_us poll)))

  -- calls until the time is used up
  spend_nat :
      (b : Bool) (time : ℤ) (n k : ℕ) → k ≤ n → Answered adv (running (pos k)) [] [] b s time
  spend_nat b time zero k le = last_call b time (pos k) (small k le)
  spend_nat b time (suc n) k le = elim (Bool-cases (leb_ℤ (pos k -ℤ cost_us poll) (pos 0))) [
    | inl over ↦ last_call b time (pos k) over
    | inr left ↦ by_step (charge (pos k) (cost_us poll) left) refl (
        subst (λ x. Answered adv (running x) [] [] b s time) (sym (less k left))
          (spend_nat b time n (k - 50) (shorter k n left le)))
  ]

  spend : (b : Bool) (time curr : ℤ) → Answered adv (running curr) [] [] b s time
  spend b time (pos k) = spend_nat b time k k (omega arith)
  spend b time (negsuc k) = last_call b time (negsuc k) (below k)

  announced : (b : Bool) (time : ℤ) → Answered adv announcing [] [] b s time
  announced b time = by_step announce tt (hear polling b time thread_blocked)

after_reply-pos : (n : ℕ) → after_reply (pos (suc n)) false ≡ running (pos (suc n))
unfolding after_reply
after_reply-pos n = ground arith

after_first-pos : (n : ℕ) → after_first (pos n) ≡ running (pos n)
unfolding after_first
after_first-pos n = ground arith

-- The thread finds the command, by one of its three reads, and goes to work.
module _ (n : ℕ) (b : Bool) (time : ℤ) where
  at_work : (t : Thread) → t ≡ running (pos (suc n)) → Answered (suc n) t [] [] b false time
  at_work t e =
      subst (λ x. Answered (suc n) x [] [] b false time) (sym e)
        (spend (suc n) false b time (pos (suc n)))

  back :
      (c : ℕ) (rest : List ℕ)
      → pipe_send (pos (suc n)) ≡ c ∷ rest
      → pipe_read (c ∷ rest) ≡ pos (suc n)
  back c rest e = rw (← e) (pipe_read-pipe_send (pos (suc n)))

  replied :
      (c : ℕ) (rest : List ℕ)
      → pipe_send (pos (suc n)) ≡ c ∷ rest
      → after_reply (pipe_read (c ∷ rest)) false ≡ running (pos (suc n))
  replied c rest e = ap (λ m. after_reply m false) (back c rest e) ∙ after_reply-pos n

  from_starting : Answered (suc n) starting (pipe_send (pos (suc n))) [] b false time
  from_starting =
      let (c, rest, e) = pipe_send-cons (pos (suc n)) in
      rw e (
        by_step (first_reply c rest) tt
          (at_work _ (ap after_first (back c rest e) ∙ after_first-pos (suc n))))

  from_awaiting : Answered (suc n) awaiting (pipe_send (pos (suc n))) [] b false time
  from_awaiting =
      let (c, rest, e) = pipe_send-cons (pos (suc n)) in
      rw e (by_step (reply c rest) tt (at_work _ (replied c rest e)))

  from_resuming : Answered (suc n) resuming (pipe_send (pos (suc n))) [] b false time
  from_resuming =
      let (c, rest, e) = pipe_send-cons (pos (suc n)) in
      rw e (by_step (resume c rest) tt (at_work _ (replied c rest e)))

During-Answered :
    (n : ℕ) (t : Thread) (i o : List ℕ) (b : Bool) (time : ℤ)
    → t ≢ exited
    → During (suc n) t i o b
    → Answered (suc n) t i o b false time
During-Answered n starting i o b time ne v = rw (v.0, v.1) (from_starting n b time)
During-Answered n awaiting i o b time ne (inl (ei, eo), eb) = rw (ei, eo) (from_awaiting n b time)
During-Answered n awaiting i o b time ne (inr (ei, (k, eo)), eb) =
    rw (ei, eo) (hear (suc n) false awaiting b time (pos k))
During-Answered n resuming i o b time ne (inl (ei, eo), eb) = rw (ei, eo) (from_resuming n b time)
During-Answered n resuming i o b time ne (inr (ei, eo), eb) =
    rw (ei, eo) (hear (suc n) false resuming b time thread_blocked)
During-Answered n polling i o b time ne v =
    rw (v.0, v.1) (hear (suc n) false polling b time thread_blocked)
During-Answered n (running curr) i o b time ne v = rw (v.0, v.1) (spend (suc n) false b time curr)
During-Answered n announcing i o b time ne v = rw (v.0, v.1) (announced (suc n) false b time)
During-Answered n exited i o b time ne v = absurd (ne refl)

-- In every reachable state in which `main` waits for the answer to a round of positive time, the
-- two sides can come to where `main` asks for the next command and both pipes are empty, unless
-- the thread has already exited; and they can do so by calls that cost the 50 microseconds which the
-- tables of the program hold, without a failing system call or an indeterminate value.
pub Reach-Answered :
    (n : ℕ) (t : Thread) (i o : List ℕ) (b s : Bool) (time : ℤ)
    → t ≢ exited
    → Reach (world (waiting (suc n)) t i o b s time)
    → Answered (suc n) t i o b s time
Reach-Answered n t i o b s time ne r =
    let (v, es) = Reach-Inv r in rw es (During-Answered n t i o b time ne v)

-- the thread has exited, with nothing on its way to `main`
abbrev pub Exits : Thread → List ℕ → List ℕ → Bool → Bool → ℤ → Type 0
Exits t i o b s time =
    (i' : List ℕ) × (b' : Bool) × Steps (world joining t i o b s time)
      (world joining exited i' [] b' s time)

exit_reply : (s : Bool) (m : ℤ) → m ≡ thread_exiting → after_reply m s ≡ exited
unfolding after_reply
exit_reply s m e = rw e refl

exit_first : (m : ℤ) → m ≡ thread_exiting → after_first m ≡ exited
unfolding after_first
exit_first m e = rw e refl

module _ (s : Bool) (time : ℤ) where
  obey :
      (t : Thread) (b : Bool)
      → ((c : ℕ) (rest : List ℕ)
          → pipe_read (c ∷ rest) ≡ thread_exiting
          → Step (world joining t (c ∷ rest) [] b s time) (world joining exited [] [] b s time))
      → Exits t (pipe_send thread_exiting) [] b s time
  obey t b read =
      let (c, rest, e) = pipe_send-cons thread_exiting in
      let back : pipe_read (c ∷ rest) ≡ thread_exiting =
        rw (← e) (pipe_read-pipe_send thread_exiting) in
      rw e ([], b, read c rest back then done)

  leave :
      (w : World) (t t' : Thread) (b : Bool)
      → t ≡ t'
      → Step w (world joining t [] [] b s time)
      → Step w (world joining t' [] [] b s time)
  leave w t t' b e st = subst (λ x. Step w (world joining x [] [] b s time)) e st

  resuming-Exits : (b : Bool) → Exits resuming (pipe_send thread_exiting) [] b s time
  resuming-Exits b = obey resuming b (λ c rest e. leave _ _ _ b (exit_reply s _ e) (resume c rest))

  Ending-Exits : (t : Thread) (i o : List ℕ) (b : Bool) → Ending t i o b → Exits t i o b s time
  Ending-Exits starting i o b v =
      rw (v.0, v.1)
        (obey starting b (λ c rest e. leave _ _ _ b (exit_first _ e) (first_reply c rest)))
  Ending-Exits awaiting i o b v =
      rw (v.0, v.1) (obey awaiting b (λ c rest e. leave _ _ _ b (exit_reply s _ e) (reply c rest)))
  Ending-Exits resuming i o b v = rw (v.0, v.1) (resuming-Exits b)
  Ending-Exits polling i o b v =
      let (i', b', steps) = resuming-Exits false in rw (v.0, v.1) (i', b', wake then steps)
  Ending-Exits (running curr) i o b v = absurd v
  Ending-Exits announcing i o b v = absurd v
  Ending-Exits exited i o b v = rw v.1 (i, b, done)

-- In every reachable state in which `main` has sent the order to exit and joins the thread, the
-- thread can come to its exit or has come to it, with nothing on its way to `main`; `poll` must
-- return for that if the thread is in it.
pub Reach-Exits :
    (t : Thread) (i o : List ℕ) (b s : Bool) (time : ℤ)
    → Reach (world joining t i o b s time)
    → Exits t i o b s time
Reach-Exits t i o b s time r = Ending-Exits s time t i o b (Reach-Inv r).0
