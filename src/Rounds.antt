-- ===== src/Rounds.antt =====
-- The rounds of src/routing/router_app_vt.c under `APP_VT`, as interleavings of `main` and of the
-- thread of `process_thread`. A pipe is the text that is written and not yet read; `read` takes
-- all of it. A step is one access to a shared variable or pipe.
pub mod Invariant
pub mod Clock
pub mod Messages
pub mod Progress
use vt_mechanisms.Word.{◌+int◌}
use vt_mechanisms.Prelude.{
  ℕ, ◌≡◌, Bool, true, false, List, [], ◌∷◌, ◌++◌, if◌then◌else◌, ◌||◌, ℤ, pos, ltb_ℤ, leb_ℤ, ◌-ℤ◌,
  ◌==ℤ◌,
}
use vt_mechanisms.Stub.{thread_blocked, thread_exiting, pipe_send, pipe_read}

-- Where `main` stands in its loop. `ret` is what it reports with the next request.
pub data Main : Type 0 where
  fetching : (ret : ℤ) → Main
  deciding sending waiting : (per_round_advance : ℕ) → Main
  stopping joining : Main

-- Where the thread stands: in one of its three kinds of `pipe_read`, at work with the time that is
-- left, about to announce that it blocks, in the endless `poll`, or finished.
pub data Thread : Type 0 where
  starting awaiting resuming : Thread
  running : (curr_round_time : ℤ) → Thread
  announcing polling exited : Thread

pub data World : Type 0 where
  world :
      Main
      → Thread
      → (main_to_thread thread_to_main : List ℕ) → (is_blocked stop : Bool) → (time_elapsed : ℤ)
      → World

-- `main` after `ret = pipe_read(..)` in a round of `adv`: the next report and the time elapsed.
unfoldable pub report : ℤ → ℤ
report ret = if ret ==ℤ thread_blocked then pos 0 else if ltb_ℤ ret (pos 0) then pos 0 else ret

unfoldable pub elapse : ℤ → ℕ → ℤ → ℤ
unfolding ◌+int◌
elapse time adv ret =
    if ret ==ℤ thread_blocked
    then time +int pos adv
    else if ltb_ℤ ret (pos 0)
    then time
    else time +int ret +int pos adv

-- The thread after a reply to `update_stub` or to a blocking poll; a zero ends it too.
unfoldable pub after_reply : ℤ → Bool → Thread
after_reply curr stop = if leb_ℤ curr (pos 0) || stop then exited else running curr

-- The thread after the first reply: a zero does not end it.
unfoldable pub after_first : ℤ → Thread
after_first curr = if ltb_ℤ curr (pos 0) then exited else running curr

pub data Step : World → World → Type 0 where
  -- `ack_and_get_next_command` asks for an advance, which is not negative, or for the end.
  fetch_advance :
      {t : Thread} {i o : List ℕ} {b s : Bool} {time : ℤ} (ret : ℤ) (adv : ℕ)
      → Step (world (fetching ret) t i o b s time) (world (deciding adv) t i o b s time)
  fetch_stop :
      {t : Thread} {i o : List ℕ} {b s : Bool} {time : ℤ} (ret : ℤ)
      → Step (world (fetching ret) t i o b s time) (world stopping t i o b true time)
  send_exit :
      {t : Thread} {i o : List ℕ} {b s : Bool} {time : ℤ}
      → Step
          (world stopping t i o b s time)
          (world joining t (i ++ pipe_send thread_exiting) o b s time)
  see_running :
      {t : Thread} {i o : List ℕ} {s : Bool} {time : ℤ} (adv : ℕ)
      → Step (world (deciding adv) t i o false s time) (world (sending adv) t i o false s time)
  see_blocked :
      {t : Thread} {i o : List ℕ} {s : Bool} {time : ℤ} (adv : ℕ)
      → Step
          (world (deciding adv) t i o true s time)
          (world (fetching (pos 0)) t i o true s (time +int pos adv))
  send_advance :
      {t : Thread} {i o : List ℕ} {b s : Bool} {time : ℤ} (adv : ℕ)
      → Step
          (world (sending adv) t i o b s time)
          (world (waiting adv) t (i ++ pipe_send (pos adv)) o b s time)
  receive :
      {t : Thread} {i : List ℕ} {b s : Bool} {time : ℤ} (adv : ℕ) (c : ℕ) (o : List ℕ)
      → Step (world (waiting adv) t i (c ∷ o) b s time) (
          world
            (fetching (report (pipe_read (c ∷ o))))
            t
            i
            []
            b
            s
            (elapse time adv (pipe_read (c ∷ o))))
  first_reply :
      {m : Main} {o : List ℕ} {b s : Bool} {time : ℤ} (c : ℕ) (i : List ℕ)
      → Step
          (world m starting (c ∷ i) o b s time)
          (world m (after_first (pipe_read (c ∷ i))) [] o b s time)
  -- A call whose cost uses the time up: `-1 * curr` goes to `main`. The cost is any number here; the
  -- tables of the program hold 50 for every function.
  finish_round :
      {m : Main} {i o : List ℕ} {b s : Bool} {time : ℤ} (curr cost over : ℤ)
      → leb_ℤ (curr -ℤ cost) (pos 0) ≡ true
      → over ≡ pos 0 -ℤ (curr -ℤ cost)
      → Step
          (world m (running curr) i o b s time)
          (world m awaiting i (o ++ pipe_send over) b s time)
  -- A call that leaves time: `update_stub` returns no value, and the caller goes on or finishes.
  charge :
      {m : Main} {i o : List ℕ} {b s : Bool} {time : ℤ} (curr cost : ℤ)
      → leb_ℤ (curr -ℤ cost) (pos 0) ≡ false
      → Step (world m (running curr) i o b s time) (world m (running (curr -ℤ cost)) i o b s time)
  charge_undefined :
      {m : Main} {i o : List ℕ} {b s : Bool} {time : ℤ} (curr cost : ℤ)
      → leb_ℤ (curr -ℤ cost) (pos 0) ≡ false
      → Step (world m (running curr) i o b s time) (world m exited i o b s time)
  reply :
      {m : Main} {o : List ℕ} {b s : Bool} {time : ℤ} (c : ℕ) (i : List ℕ)
      → Step
          (world m awaiting (c ∷ i) o b s time)
          (world m (after_reply (pipe_read (c ∷ i)) s) [] o b s time)
  see_stop :
      {m : Main} {i o : List ℕ} {b : Bool} {time : ℤ} (curr : ℤ)
      → Step (world m (running curr) i o b true time) (world m exited i o b true time)
  -- A system call fails: before the first reply a socket cannot be opened, at work or in the endless
  -- call `poll` fails. The thread ends without a message.
  fail_start :
      {m : Main} {i o : List ℕ} {b s : Bool} {time : ℤ}
      → Step (world m starting i o b s time) (world m exited i o b s time)
  fail_poll :
      {m : Main} {i o : List ℕ} {b s : Bool} {time : ℤ} (curr : ℤ)
      → Step (world m (running curr) i o b s time) (world m exited i o b s time)
  fail_polling :
      {m : Main} {i o : List ℕ} {b s : Bool} {time : ℤ}
      → Step (world m polling i o b s time) (world m exited i o b s time)
  block :
      {m : Main} {i o : List ℕ} {b s : Bool} {time : ℤ} (curr : ℤ)
      → Step (world m (running curr) i o b s time) (world m announcing i o true s time)
  announce :
      {m : Main} {i o : List ℕ} {b s : Bool} {time : ℤ}
      → Step
          (world m announcing i o b s time)
          (world m polling i (o ++ pipe_send thread_blocked) b s time)
  wake :
      {m : Main} {i o : List ℕ} {b s : Bool} {time : ℤ}
      → Step (world m polling i o b s time) (world m resuming i o false s time)
  resume :
      {m : Main} {o : List ℕ} {b s : Bool} {time : ℤ} (c : ℕ) (i : List ℕ)
      → Step
          (world m resuming (c ∷ i) o b s time)
          (world m (after_reply (pipe_read (c ∷ i)) s) [] o b s time)

abbrev pub initial : World
initial = world (fetching (pos 0)) starting [] [] false false (pos 0)

pub data Reach : World → Type 0 where
  here : Reach initial
  next : {w w' : World} → Reach w → Step w w' → Reach w'
