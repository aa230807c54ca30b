-- ===== src/RouterThread/Turns.antt =====
-- What the thread of src/routing/utils.c does in one turn, as steps of src/routing/Rounds: the
-- calls of `update_stub` and the block, for whatever `main` does meanwhile.
use vt_mechanisms.Prelude.{
  ℕ, ◌≡◌, refl, Bool, true, false, ◌||◌, List, [], ◌∷◌, ◌++◌, Option, none, some, Bool-cases,
  if◌then◌else◌, ℤ, pos, ltb_ℤ, leb_ℤ, ◌-ℤ◌, inl, inr,
}
use vt_mechanisms.Stub.{exiting, success, update_stub_after, pipe_send, pipe_read, thread_blocked}
use vt_mechanisms.Rounds.{
  Main, Thread, starting, awaiting, resuming, running, announcing, polling, exited, world,
  after_reply, after_first, finish_round, charge, charge_undefined, reply, see_stop, block,
  announce, wake, resume, first_reply,
}
use vt_mechanisms.Rounds.Progress.{Steps, done, ◌then◌}
use vt_mechanisms.RouterThread.{
  ThreadEvent, looked, began, said, heard, announcement, woke, stub_events, stub_value,
}

-- Every state of `main`, with what it wrote and has to read, the flag and the time.
abbrev pub Alone : Bool → Thread → Thread → Type 0
Alone s t t' =
    (m : Main) (i o : List ℕ) (b : Bool) (time : ℤ)
    → Steps (world m t i o b s time) (world m t' i o b s time)

-- the thread writes a text and stands at a read
abbrev pub Speaks : Thread → List ℕ → Thread → Type 0
Speaks t text t' =
    (m : Main) (i o : List ℕ) (b s : Bool) (time : ℤ)
    → Steps (world m t i o b s time) (world m t' i (o ++ text) b s time)

-- the thread sets the flag that it is blocked
abbrev pub Raises : Thread → Thread → Type 0
Raises t t' =
    (m : Main) (i o : List ℕ) (b s : Bool) (time : ℤ)
    → Steps (world m t i o b s time) (world m t' i o true s time)

-- the thread reads the text of the turn
abbrev pub Hears : Bool → Thread → List ℕ → Thread → Type 0
Hears s t text t' =
    (m : Main) (o : List ℕ) (b : Bool) (time : ℤ)
    → Steps (world m t text o b s time) (world m t' [] o b s time)

-- A turn: the thread's own steps, between which `main` may do as it likes where the thread waits.
pub data OneTurn (text : List ℕ) (s : Bool) (t : Thread) : List ThreadEvent → Thread → Type 0 where
  alone : {t' : Thread} → Alone s t t' → OneTurn text s t (looked s ∷ []) t'
  hears :
      {t' : Thread} → ((stop : Bool) → Hears stop t text t') → OneTurn text s t (began text ∷ []) t'
  exchange :
      {t' : Thread} (mid : Thread) (sent : List ℕ)
      → Speaks t sent mid
      → Hears s mid text t'
      → OneTurn text s t (said sent ∷ heard text s ∷ []) t'
  -- between the announcement and the read the thread wakes, and takes the flag back
  blocked :
      {t' : Thread}
      → Raises t announcing
      → Speaks announcing (pipe_send thread_blocked) polling
      → ((m : Main) (i o : List ℕ) (b stop : Bool) (time : ℤ)
          → Steps (world m polling i o b stop time) (world m resuming i o false stop time))
      → Hears s resuming text t'
      → OneTurn text s t (announcement ++ woke ∷ heard text s ∷ []) t'

pub stub_value-if :
    (b : Bool) (g : ℤ) → ltb_ℤ (stub_value (if b then exiting else success) g) (pos 0) ≡ b
unfolding stub_value
stub_value-if true g = refl
stub_value-if false g = refl

module _ (text : List ℕ) where
  stays :
      (stop : Bool) (curr : ℤ)
      → OneTurn text stop (running curr) (looked stop ∷ []) (if stop then exited else running curr)
  stays true curr = alone λ m i o b time. see_stop curr then done
  stays false curr = alone λ m i o b time. done

  -- `update_stub` leaves time, and its caller reads a value of either sign
  leaves :
      (bad stop : Bool) (curr cost : ℤ)
      → leb_ℤ (curr -ℤ cost) (pos 0) ≡ false
      → OneTurn text stop
          (running curr)
          (looked stop ∷ [])
          (if bad || stop then exited else running (curr -ℤ cost))
  leaves true stop curr cost h = alone λ m i o b time. charge_undefined curr cost h then done
  leaves false true curr cost h =
      alone λ m i o b time. charge curr cost h then see_stop (curr -ℤ cost) then done
  leaves false false curr cost h = alone λ m i o b time. charge curr cost h then done

  module _ (c : ℕ) (rest : List ℕ) (whole : text ≡ c ∷ rest) where
    hear_reply : (stop : Bool) → Hears stop awaiting text (after_reply (pipe_read text) stop)
    hear_reply stop m o b time = rw whole (reply c rest then done)

    reports :
        (stop : Bool) (curr cost : ℤ)
        → leb_ℤ (curr -ℤ cost) (pos 0) ≡ true
        → OneTurn text stop
            (running curr)
            (said (pipe_send (pos 0 -ℤ (curr -ℤ cost))) ∷ heard text stop ∷ [])
            (after_reply (pipe_read text) stop)
    reports stop curr cost h =
        exchange awaiting _ (λ m i o b s time. finish_round curr cost _ h refl then done)
          (hear_reply stop)

    -- the caller's test behind a call of `update_stub`
    pub charge_turn :
        (cost : Option ℤ) (curr garbage : ℤ) (stop : Bool)
        → let e = update_stub_after cost curr text in
          OneTurn text stop (running curr) (stub_events e.sent text stop) (
            if ltb_ℤ (stub_value e.result garbage) (pos 0) || stop
            then exited
            else running e.curr_round_time_left)
    unfolding update_stub_after stub_value after_reply
    charge_turn none curr garbage stop = stays stop curr
    charge_turn (some cost) curr garbage stop = elim (Bool-cases (leb_ℤ (curr -ℤ cost) (pos 0))) [
      | inl over ↦ rw (over, stub_value-if) (reports stop curr cost over)
      | inr left ↦ rw left (leaves (ltb_ℤ garbage (pos 0)) stop curr cost left)
    ]

    pub resume_turn :
        (curr : ℤ) (stop : Bool)
        → OneTurn text stop
            (running curr)
            (announcement ++ woke ∷ heard text stop ∷ [])
            (after_reply (pipe_read text) stop)
    resume_turn curr stop =
        blocked (λ m i o b stop time. block curr then done)
          (λ m i o b stop time. announce then done) (λ m i o b stop time. wake then done)
          λ m o b time. rw whole (resume c rest then done)

    pub first_turn :
        (stop : Bool) → OneTurn text stop starting (began text ∷ []) (after_first (pipe_read text))
    first_turn stop = hears λ s m o b time. rw whole (first_reply c rest then done)
