-- ===== src/Rounds/Invariant.antt =====
-- What the pipes hold, by where `main` and the thread stand, and its induction over the steps.
use vt_mechanisms.Prelude.{
  ℕ, zero, suc, ◌≡◌, refl, ◌∙◌, ap, Bool, true, false, List, [], ◌∷◌, ◌++◌, append-nil, ◌⊎◌, inl,
  inr, ℤ, pos, negsuc, leb_ℤ, ◌-ℤ◌, arith, neg_part,
}
use vt_mechanisms.Decimal.RoundTrip.{atoi-print_int}
use vt_mechanisms.Stub.{thread_blocked, thread_exiting, pipe_send, pipe_read}
use vt_mechanisms.Rounds.{
  Main, fetching, deciding, sending, waiting, stopping, joining, Thread, starting, awaiting,
  resuming, running, announcing, polling, exited, World, world, after_reply, after_first, Step,
  fetch_advance, fetch_stop, send_exit, see_running, see_blocked, send_advance, receive,
  first_reply, finish_round, charge, charge_undefined, reply, see_stop, fail_start, fail_poll,
  fail_polling, block, announce, wake, resume, Reach, here, next,
}

-- the number that one message carries is what `pipe_read` gives
pub pipe_read-pipe_send : (m : ℤ) → pipe_read (pipe_send m) ≡ m
unfolding pipe_read pipe_send
pipe_read-pipe_send m = rw append-nil at (atoi-print_int m [] tt)

-- a message that carries a number that is not negative
abbrev pub Overshoot : List ℕ → Type 0
Overshoot o = (n : ℕ) × (o ≡ pipe_send (pos n))

-- While `main` is between two rounds nothing is on its way; the thread listens or polls.
abbrev pub Between : Thread → List ℕ → List ℕ → Bool → Type 0
Between starting i o b = (i ≡ []) × (o ≡ []) × (b ≡ false)
Between awaiting i o b = (i ≡ []) × (o ≡ []) × (b ≡ false)
Between resuming i o b = (i ≡ []) × (o ≡ []) × (b ≡ false)
Between polling i o b = (i ≡ []) × (o ≡ []) × (b ≡ true)
Between (running curr) i o b = ⊥
Between announcing i o b = ⊥
Between exited i o b = (i ≡ []) × (o ≡ [])

-- While `main` waits for the thread: the command, or the answer, or neither is on its way.
abbrev pub During : ℕ → Thread → List ℕ → List ℕ → Bool → Type 0
During adv starting i o b = (i ≡ pipe_send (pos adv)) × (o ≡ []) × (b ≡ false)
During adv awaiting i o b =
    ((i ≡ pipe_send (pos adv)) × (o ≡ []) ⊎ (i ≡ []) × Overshoot o) × (b ≡ false)
During adv resuming i o b =
    ((i ≡ pipe_send (pos adv)) × (o ≡ []) ⊎ (i ≡ []) × (o ≡ pipe_send thread_blocked)) × (b ≡ false)
During adv polling i o b = (i ≡ []) × (o ≡ pipe_send thread_blocked) × (b ≡ true)
During adv (running curr) i o b = (i ≡ []) × (o ≡ []) × (b ≡ false)
During adv announcing i o b = (i ≡ []) × (o ≡ []) × (b ≡ true)
During adv exited i o b =
    ((i ≡ []) ⊎ (i ≡ pipe_send (pos adv))) × (o ≡ [])
    ⊎ (i ≡ []) × (o ≡ pipe_send thread_blocked) × (b ≡ true)

-- Once `main` has sent the order to exit.
abbrev pub Ending : Thread → List ℕ → List ℕ → Bool → Type 0
Ending starting i o b = (i ≡ pipe_send thread_exiting) × (o ≡ []) × (b ≡ false)
Ending awaiting i o b = (i ≡ pipe_send thread_exiting) × (o ≡ []) × (b ≡ false)
Ending resuming i o b = (i ≡ pipe_send thread_exiting) × (o ≡ []) × (b ≡ false)
Ending polling i o b = (i ≡ pipe_send thread_exiting) × (o ≡ []) × (b ≡ true)
Ending (running curr) i o b = ⊥
Ending announcing i o b = ⊥
Ending exited i o b = ((i ≡ []) ⊎ (i ≡ pipe_send thread_exiting)) × (o ≡ [])

abbrev pub Inv : World → Type 0
Inv (world (fetching ret) t i o b s time) = Between t i o b × (s ≡ false)
Inv (world (deciding adv) t i o b s time) = Between t i o b × (s ≡ false)
Inv (world (sending adv) t i o b s time) = Between t i o b × (b ≡ false) × (s ≡ false)
Inv (world (waiting adv) t i o b s time) = During adv t i o b × (s ≡ false)
Inv (world stopping t i o b s time) = Between t i o b × (s ≡ true)
Inv (world joining t i o b s time) = Ending t i o b × (s ≡ true)

-- the sign of `-1 * curr` when the time is used up
over_lem :
    (curr cost over : ℤ)
    → leb_ℤ (curr -ℤ cost) (pos 0) ≡ true
    → over ≡ pos 0 -ℤ (curr -ℤ cost)
    → (n : ℕ) × (over ≡ pos n)
unfolding ◌-ℤ◌
over_lem curr cost over h e = (neg_part (curr -ℤ cost), e ∙ negated (curr -ℤ cost) h)
  where
    negated : (x : ℤ) → leb_ℤ x (pos 0) ≡ true → pos 0 -ℤ x ≡ pos (neg_part x)
    negated (pos zero) h = refl
    negated (pos (suc n)) h = absurd (ground arith)
    negated (negsuc n) h = ground arith

-- Writing to an empty pipe.
put_lem : (i x : List ℕ) → i ≡ [] → i ++ x ≡ x
put_lem i x e = rw e refl

send_exit-Inv :
    (t : Thread) (i o : List ℕ) (b : Bool)
    → Between t i o b
    → Ending t (i ++ pipe_send thread_exiting) o b
send_exit-Inv starting i o b v = ground (arith, put_lem i (pipe_send thread_exiting))
send_exit-Inv exited i o b v = (inr (put_lem i (pipe_send thread_exiting) v.0), v.1)
send_exit-Inv t i o b v = ground (arith, put_lem i (pipe_send thread_exiting))

send_advance-Inv :
    (adv : ℕ) (t : Thread) (i o : List ℕ) (b : Bool)
    → Between t i o b
    → b ≡ false
    → During adv t (i ++ pipe_send (pos adv)) o b
send_advance-Inv adv starting i o b v e = ground (arith, put_lem i (pipe_send (pos adv)))
send_advance-Inv adv awaiting i o b v e = (inl (put_lem i (pipe_send (pos adv)) v.0, v.1), e)
send_advance-Inv adv resuming i o b v e = (inl (put_lem i (pipe_send (pos adv)) v.0, v.1), e)
send_advance-Inv adv exited i o b v e = inl (inr (put_lem i (pipe_send (pos adv)) v.0), v.1)
send_advance-Inv adv t i o b v e = ground (arith, put_lem i (pipe_send (pos adv)))

receive-Inv :
    (adv : ℕ) (t : Thread) (i : List ℕ) (c : ℕ) (o : List ℕ) (b : Bool)
    → During adv t i (c ∷ o) b
    → Between t i [] b
receive-Inv adv starting i c o b v = ground arith
receive-Inv adv t i c o b v = ground arith

-- The thread after the number `m`, of which it knows the sign.
after_reply-During :
    (adv : ℕ) (b : Bool) → b ≡ false → During adv (after_reply (pos adv) false) [] [] b
unfolding after_reply
after_reply-During zero b e = inl (inl refl, refl)
after_reply-During (suc n) b e = ground arith

after_first-During : (adv : ℕ) (b : Bool) → b ≡ false → During adv (after_first (pos adv)) [] [] b
unfolding after_first
after_first-During adv b e = ground arith

after_exit : (s : Bool) → after_reply thread_exiting s ≡ exited
unfolding after_reply
after_exit s = refl

first_exit : after_first thread_exiting ≡ exited
unfolding after_first
first_exit = refl

first_reply-Inv :
    (m : Main) (c : ℕ) (i o : List ℕ) (b s : Bool) (time : ℤ)
    → Inv (world m starting (c ∷ i) o b s time)
    → Inv (world m (after_first (pipe_read (c ∷ i))) [] o b s time)
first_reply-Inv (fetching ret) c i o b s time v = absurd (ground arith)
first_reply-Inv (deciding adv) c i o b s time v = absurd (ground arith)
first_reply-Inv (sending adv) c i o b s time v = absurd (ground arith)
first_reply-Inv stopping c i o b s time v = absurd (ground arith)
first_reply-Inv (waiting adv) c i o b s time v =
    (rw (v.0.0, pipe_read-pipe_send, v.0.1) (after_first-During adv b v.0.2), v.1)
first_reply-Inv joining c i o b s time v =
    (rw (v.0.0, pipe_read-pipe_send, first_exit) (inl refl, v.0.1), v.1)

-- The same for the two other ways to listen.
reply-Inv :
    (m : Main) (c : ℕ) (i o : List ℕ) (b s : Bool) (time : ℤ)
    → Inv (world m awaiting (c ∷ i) o b s time) ⊎ Inv (world m resuming (c ∷ i) o b s time)
    → Inv (world m (after_reply (pipe_read (c ∷ i)) s) [] o b s time)
reply-Inv (fetching ret) c i o b s time v = absurd (ground arith)
reply-Inv (deciding adv) c i o b s time v = absurd (ground arith)
reply-Inv (sending adv) c i o b s time v = absurd (ground arith)
reply-Inv stopping c i o b s time v = absurd (ground arith)
reply-Inv (waiting adv) c i o b s time v =
    let sent : (c ∷ i ≡ pipe_send (pos adv)) × (o ≡ []) × (b ≡ false) × (s ≡ false) =
      ground arith in
    (rw (sent.0, pipe_read-pipe_send, sent.1, sent.3) (after_reply-During adv b sent.2), sent.3)
reply-Inv joining c i o b s time v =
    let sent : (c ∷ i ≡ pipe_send thread_exiting) × (o ≡ []) × (s ≡ true) = ground arith in
    (rw (sent.0, pipe_read-pipe_send, after_exit) (inl refl, sent.1), sent.2)

-- Only while `main` waits is the thread at work.
running_waits :
    (m : Main) (curr : ℤ) (i o : List ℕ) (b s : Bool) (time : ℤ)
    → Inv (world m (running curr) i o b s time)
    → (adv : ℕ) × (m ≡ waiting adv) × (i ≡ []) × (o ≡ []) × (b ≡ false) × (s ≡ false)
running_waits (waiting adv) curr i o b s time v = (adv, refl, v.0.0, v.0.1, v.0.2, v.1)
running_waits (fetching ret) curr i o b s time v = absurd v.0
running_waits (deciding adv) curr i o b s time v = absurd v.0
running_waits (sending adv) curr i o b s time v = absurd v.0
running_waits stopping curr i o b s time v = absurd v.0
running_waits joining curr i o b s time v = absurd v.0

announce-Inv :
    (m : Main) (i o : List ℕ) (b s : Bool) (time : ℤ)
    → Inv (world m announcing i o b s time)
    → Inv (world m polling i (o ++ pipe_send thread_blocked) b s time)
announce-Inv (waiting adv) i o b s time v =
    ((v.0.0, put_lem o (pipe_send thread_blocked) v.0.1, v.0.2), v.1)
announce-Inv m i o b s time v = absurd v.0

wake-Inv :
    (m : Main) (i o : List ℕ) (b s : Bool) (time : ℤ)
    → Inv (world m polling i o b s time)
    → Inv (world m resuming i o false s time)
wake-Inv (waiting adv) i o b s time v = ((inr (v.0.0, v.0.1), refl), v.1)
wake-Inv (sending adv) i o b s time v = absurd (ground arith)
wake-Inv m i o b s time v = ((v.0.0, v.0.1, refl), v.1)

fail_start-Inv :
    (m : Main) (i o : List ℕ) (b s : Bool) (time : ℤ)
    → Inv (world m starting i o b s time)
    → Inv (world m exited i o b s time)
fail_start-Inv (waiting adv) i o b s time v = (inl (inr v.0.0, v.0.1), v.1)
fail_start-Inv joining i o b s time v = ((inr v.0.0, v.0.1), v.1)
fail_start-Inv (sending adv) i o b s time v = ((v.0.0, v.0.1), v.1, v.2)
fail_start-Inv m i o b s time v = ((v.0.0, v.0.1), v.1)

fail_polling-Inv :
    (m : Main) (i o : List ℕ) (b s : Bool) (time : ℤ)
    → Inv (world m polling i o b s time)
    → Inv (world m exited i o b s time)
fail_polling-Inv (waiting adv) i o b s time v = (inr (v.0.0, v.0.1, v.0.2), v.1)
fail_polling-Inv joining i o b s time v = ((inr v.0.0, v.0.1), v.1)
fail_polling-Inv (sending adv) i o b s time v = ((v.0.0, v.0.1), v.1, v.2)
fail_polling-Inv m i o b s time v = ((v.0.0, v.0.1), v.1)

Step-Inv : {w w' : World} → Step w w' → Inv w → Inv w'
Step-Inv (fetch_advance ret adv) v = v
Step-Inv (fetch_stop ret) v = (v.0, refl)
Step-Inv (send_exit {t} {i} {o} {b}) v = (send_exit-Inv t i o b v.0, v.1)
Step-Inv (see_running adv) v = (v.0, refl, v.1)
Step-Inv (see_blocked adv) v = v
Step-Inv (send_advance {t} {i} {o} {b} adv) v = (send_advance-Inv adv t i o b v.0 v.1, v.2)
Step-Inv (receive {t} {i} {b} adv c o) v = (receive-Inv adv t i c o b v.0, v.1)
Step-Inv (first_reply {m} {o} {b} {s} {time} c i) v = first_reply-Inv m c i o b s time v
Step-Inv (finish_round {m} {i} {o} {b} {s} {time} curr cost over h e) v =
    let (adv, em, ei, eo, eb, es) = running_waits m curr i o b s time v in
    let (n, en) = over_lem curr cost over h e in
    rw em ((inr (ei, (n, put_lem o (pipe_send over) eo ∙ ap pipe_send en)), eb), es)
Step-Inv (charge {m} {i} {o} {b} {s} {time} curr cost h) v =
    let (adv, em, ei, eo, eb, es) = running_waits m curr i o b s time v in rw em ((ei, eo, eb), es)
Step-Inv (charge_undefined {m} {i} {o} {b} {s} {time} curr cost h) v =
    let (adv, em, ei, eo, eb, es) = running_waits m curr i o b s time v in
    rw em (inl (inl ei, eo), es)
Step-Inv (reply {m} {o} {b} {s} {time} c i) v = reply-Inv m c i o b s time (inl v)
Step-Inv (see_stop {m} {i} {o} {b} {time} curr) v =
    let (adv, em, ei, eo, eb, es) = running_waits m curr i o b true time v in absurd (ground arith)
Step-Inv (fail_start {m} {i} {o} {b} {s} {time}) v = fail_start-Inv m i o b s time v
Step-Inv (fail_poll {m} {i} {o} {b} {s} {time} curr) v =
    let (adv, em, ei, eo, eb, es) = running_waits m curr i o b s time v in
    rw em (inl (inl ei, eo), es)
Step-Inv (fail_polling {m} {i} {o} {b} {s} {time}) v = fail_polling-Inv m i o b s time v
Step-Inv (block {m} {i} {o} {b} {s} {time} curr) v =
    let (adv, em, ei, eo, eb, es) = running_waits m curr i o b s time v in
    rw em ((ei, eo, refl), es)
Step-Inv (announce {m} {i} {o} {b} {s} {time}) v = announce-Inv m i o b s time v
Step-Inv (wake {m} {i} {o} {b} {s} {time}) v = wake-Inv m i o b s time v
Step-Inv (resume {m} {o} {b} {s} {time} c i) v = reply-Inv m c i o b s time (inr v)

pub Reach-Inv : {w : World} → Reach w → Inv w
Reach-Inv here = ((refl, refl, refl), refl)
Reach-Inv (next r st) = Step-Inv st (Reach-Inv r)
