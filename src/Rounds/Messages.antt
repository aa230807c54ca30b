-- ===== src/Rounds/Messages.antt =====
-- The pipes and what is read from them in a reachable state, and a round of no time.
use vt_mechanisms.Prelude.{
  ℕ, zero, ◌≡◌, refl, ◌∙◌, ap, ◌⊎◌, inl, inr, Bool, true, false, List, [], ◌∷◌, ℤ, pos, arith,
}
use vt_mechanisms.Stub.{thread_blocked, thread_exiting, pipe_send, pipe_read}
use vt_mechanisms.Rounds.{
  Main, fetching, deciding, sending, waiting, stopping, joining, Thread, starting, awaiting,
  resuming, running, announcing, polling, exited, World, world, after_reply, Step, receive, reply,
  fetch_advance, see_running, send_advance, Reach, next,
}
use vt_mechanisms.Rounds.Invariant.{
  Overshoot, pipe_read-pipe_send, Between, During, Ending, Reach-Inv,
}

-- a command on its way to the thread: an advance, or the order to exit once the flag is set
abbrev pub Command : List ℕ → Bool → Type 0
Command i s = ((adv : ℕ) × (i ≡ pipe_send (pos adv))) ⊎ (i ≡ pipe_send thread_exiting) × (s ≡ true)

-- a report on its way to `main`: by how much the round was exceeded, or that the thread blocks
abbrev pub Report : List ℕ → Type 0
Report o = Overshoot o ⊎ (o ≡ pipe_send thread_blocked)

-- One message at most is on its way, over both pipes.
abbrev pub OneMessage : (main_to_thread thread_to_main : List ℕ) → (stop : Bool) → Type 0
OneMessage i o s = (i ≡ []) × (o ≡ []) ⊎ Command i s × (o ≡ []) ⊎ (i ≡ []) × Report o

Between-OneMessage : (t : Thread) (i o : List ℕ) (b s : Bool) → Between t i o b → OneMessage i o s
Between-OneMessage starting i o b s (ei, eo, eb) = inl (ei, eo)
Between-OneMessage awaiting i o b s (ei, eo, eb) = inl (ei, eo)
Between-OneMessage resuming i o b s (ei, eo, eb) = inl (ei, eo)
Between-OneMessage polling i o b s (ei, eo, eb) = inl (ei, eo)
Between-OneMessage (running curr) i o b s v = absurd v
Between-OneMessage announcing i o b s v = absurd v
Between-OneMessage exited i o b s (ei, eo) = inl (ei, eo)

During-OneMessage :
    (adv : ℕ) (t : Thread) (i o : List ℕ) (b s : Bool) → During adv t i o b → OneMessage i o s
During-OneMessage adv starting i o b s (ei, eo, eb) = inr (inl (inl (adv, ei), eo))
During-OneMessage adv awaiting i o b s (inl (ei, eo), eb) = inr (inl (inl (adv, ei), eo))
During-OneMessage adv awaiting i o b s (inr (ei, r), eb) = inr (inr (ei, inl r))
During-OneMessage adv resuming i o b s (inl (ei, eo), eb) = inr (inl (inl (adv, ei), eo))
During-OneMessage adv resuming i o b s (inr (ei, r), eb) = inr (inr (ei, inr r))
During-OneMessage adv polling i o b s (ei, eo, eb) = inr (inr (ei, inr eo))
During-OneMessage adv (running curr) i o b s (ei, eo, eb) = inl (ei, eo)
During-OneMessage adv announcing i o b s (ei, eo, eb) = inl (ei, eo)
During-OneMessage adv exited i o b s (inl (inl ei, eo)) = inl (ei, eo)
During-OneMessage adv exited i o b s (inl (inr ei, eo)) = inr (inl (inl (adv, ei), eo))
During-OneMessage adv exited i o b s (inr (ei, eo, eb)) = inr (inr (ei, inr eo))

Ending-OneMessage :
    (t : Thread) (i o : List ℕ) (b s : Bool) → Ending t i o b → s ≡ true → OneMessage i o s
Ending-OneMessage starting i o b s (ei, eo, eb) e = inr (inl (inr (ei, e), eo))
Ending-OneMessage awaiting i o b s (ei, eo, eb) e = inr (inl (inr (ei, e), eo))
Ending-OneMessage resuming i o b s (ei, eo, eb) e = inr (inl (inr (ei, e), eo))
Ending-OneMessage polling i o b s (ei, eo, eb) e = inr (inl (inr (ei, e), eo))
Ending-OneMessage (running curr) i o b s v e = absurd v
Ending-OneMessage announcing i o b s v e = absurd v
Ending-OneMessage exited i o b s (inl ei, eo) e = inl (ei, eo)
Ending-OneMessage exited i o b s (inr ei, eo) e = inr (inl (inr (ei, e), eo))

-- In every interleaving of `main` and the thread one message at most is on its way: a command to the
-- thread, which is an advance or, once `stop` is set, the order to exit, or a report to `main`, which
-- says by how much a round was exceeded or that the thread blocks. No read meets two messages run
-- together.
pub Reach-OneMessage :
    (m : Main) (t : Thread) (i o : List ℕ) (b s : Bool) (time : ℤ)
    → Reach (world m t i o b s time)
    → OneMessage i o s
Reach-OneMessage (fetching ret) t i o b s time r = Between-OneMessage t i o b s (Reach-Inv r).0
Reach-OneMessage (deciding adv) t i o b s time r = Between-OneMessage t i o b s (Reach-Inv r).0
Reach-OneMessage (sending adv) t i o b s time r = Between-OneMessage t i o b s (Reach-Inv r).0
Reach-OneMessage (waiting adv) t i o b s time r = During-OneMessage adv t i o b s (Reach-Inv r).0
Reach-OneMessage stopping t i o b s time r = Between-OneMessage t i o b s (Reach-Inv r).0
Reach-OneMessage joining t i o b s time r =
    Ending-OneMessage t i o b s (Reach-Inv r).0 (Reach-Inv r).1

-- the number that the thread may find, by where `main` stands
abbrev pub Commands : Main → ℤ → Type 0
Commands (waiting adv) m = m ≡ pos adv
Commands joining m = m ≡ thread_exiting
Commands (fetching ret) m = ⊥
Commands (deciding adv) m = ⊥
Commands (sending adv) m = ⊥
Commands stopping m = ⊥

read_back : (i : List ℕ) (m : ℤ) → i ≡ pipe_send m → pipe_read i ≡ m
read_back i m e = ap pipe_read e ∙ pipe_read-pipe_send m

Between-nil : (t : Thread) (i o : List ℕ) (b : Bool) → Between t i o b → i ≡ []
Between-nil starting i o b v = v.0
Between-nil awaiting i o b v = v.0
Between-nil resuming i o b v = v.0
Between-nil polling i o b v = v.0
Between-nil (running curr) i o b v = absurd v
Between-nil announcing i o b v = absurd v
Between-nil exited i o b v = v.0

Between-quiet : (t : Thread) (c : ℕ) (i o : List ℕ) (b : Bool) → Between t (c ∷ i) o b → ⊥
Between-quiet t c i o b v = let e : c ∷ i ≡ [] = Between-nil t (c ∷ i) o b v in ground arith

During-command :
    (adv : ℕ) (t : Thread) (c : ℕ) (i o : List ℕ) (b : Bool)
    → During adv t (c ∷ i) o b
    → c ∷ i ≡ pipe_send (pos adv)
During-command adv starting c i o b v = v.0
During-command adv awaiting c i o b v = ground arith
During-command adv resuming c i o b v = ground arith
During-command adv exited c i o b (inl (inr e, f)) = e
During-command adv exited c i o b (inl (inl e, f)) = absurd (ground arith)
During-command adv exited c i o b (inr v) = absurd (ground arith)
During-command adv t c i o b v = absurd (ground arith)

Ending-command :
    (t : Thread) (c : ℕ) (i o : List ℕ) (b : Bool)
    → Ending t (c ∷ i) o b
    → c ∷ i ≡ pipe_send thread_exiting
Ending-command starting c i o b v = v.0
Ending-command awaiting c i o b v = v.0
Ending-command resuming c i o b v = v.0
Ending-command polling c i o b v = v.0
Ending-command exited c i o b (inr e, f) = e
Ending-command exited c i o b (inl e, f) = absurd (ground arith)
Ending-command t c i o b v = absurd (ground arith)

-- In every interleaving, whatever the thread finds in its pipe is the advance of the round that
-- `main` waits for, or the order to exit once `main` has sent it.
pub Reach-Commands :
    (m : Main) (t : Thread) (c : ℕ) (i o : List ℕ) (b s : Bool) (time : ℤ)
    → Reach (world m t (c ∷ i) o b s time)
    → Commands m (pipe_read (c ∷ i))
Reach-Commands (fetching ret) t c i o b s time r = Between-quiet t c i o b (Reach-Inv r).0
Reach-Commands (deciding adv) t c i o b s time r = Between-quiet t c i o b (Reach-Inv r).0
Reach-Commands (sending adv) t c i o b s time r = Between-quiet t c i o b (Reach-Inv r).0
Reach-Commands (waiting adv) t c i o b s time r =
    read_back (c ∷ i) (pos adv) (During-command adv t c i o b (Reach-Inv r).0)
Reach-Commands stopping t c i o b s time r = Between-quiet t c i o b (Reach-Inv r).0
Reach-Commands joining t c i o b s time r =
    read_back (c ∷ i) thread_exiting (Ending-command t c i o b (Reach-Inv r).0)

-- a thread that has exited answers nothing
exited_stuck :
    (adv : ℕ) (i o : List ℕ) (b s : Bool) (time : ℤ) (w : World)
    → o ≡ []
    → Step (world (waiting adv) exited i o b s time) w
    → ⊥
exited_stuck adv i o b s time w e (receive adv' c o') = ground arith

-- When the thread reads an advance of 0 at the end of a round it exits, and then neither side can
-- take a step: `main` waits for an answer for ever.
pub zero_round_stuck :
    (c : ℕ) (i o : List ℕ) (b s : Bool) (time : ℤ)
    → Reach (world (waiting zero) awaiting (c ∷ i) o b s time)
    → Reach (world (waiting zero) exited [] [] b s time)
      × ((w : World) → ¬ Step (world (waiting zero) exited [] [] b s time) w)
unfolding after_reply
zero_round_stuck c i o b s time r =
    let v = Reach-Inv r in
    let sent : (c ∷ i ≡ pipe_send (pos zero)) × (o ≡ []) = ground arith in
    let zero_read : pipe_read (c ∷ i) ≡ pos zero = read_back (c ∷ i) (pos zero) sent.0 in
    let ended : after_reply (pipe_read (c ∷ i)) s ≡ exited = rw zero_read refl in
    let exits : Reach (world (waiting zero) exited [] o b s time) =
      rw (← ended) (next r (reply c i)) in
    (rw sent.1 at exits, λ w. exited_stuck zero [] [] b s time w refl)

-- Where the thread has ended before its first reply, or at work, and `main` asks for the next
-- command, an advance of any length is sent and `main` then waits for ever: neither side can take a
-- step.
pub dead_thread_stuck :
    (ret : ℤ) (adv : ℕ) (i o : List ℕ) (s : Bool) (time : ℤ)
    → Reach (world (fetching ret) exited i o false s time)
    → Reach (world (waiting adv) exited (pipe_send (pos adv)) [] false s time)
      × ((w : World) → ¬ Step (world (waiting adv) exited (pipe_send (pos adv)) [] false s time) w)
dead_thread_stuck ret adv i o s time r =
    let (ei, eo) = (Reach-Inv r).0 in
    let start : Reach (world (fetching ret) exited [] [] false s time) = rw (ei, eo) at r in
    (
      next (next (next start (fetch_advance ret adv)) (see_running adv)) (send_advance adv),
      λ w. exited_stuck adv (pipe_send (pos adv)) [] false s time w refl,
    )
