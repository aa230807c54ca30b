-- ===== src/RouterThread.antt =====
-- `process_thread` of src/routing/utils.c under `APP_VT`: the forwarding loop of the virtual-time
-- router. Each library call is followed by a call of `update_stub` with its name, and the thread
-- finishes when that returns a negative value or `arg->stop` is set.
pub mod Sends
pub mod Turns
pub mod Play
pub mod Refines
pub mod Whole
pub mod Enough
use vt_mechanisms.Prelude.{
  ℕ, Bool, true, false, ◌||◌, List, [], ◌∷◌, ◌++◌, Option, none, some, if◌then◌else◌, ℤ, pos,
  negsuc, ltb_ℤ, leb_ℤ,
}
use vt_mechanisms.Stub.{
  StubResult, success, exiting, no_value, StubEffect, update_stub_first, update_stub_after,
  pipe_send, pipe_read, thread_blocked, Cost, poll, flush_buffer, recvfrom, get_dst_sock_idx,
  send_packet,
}
use vt_mechanisms.Router.{
  Sent, Socket, not_ready, nothing_read, packet, PollResult, interrupted, failed, polled,
}

-- What the system decides for one round of the outer loop: `arg->stop` at its head, what `poll`
-- finds, and what the endless `poll` finds if the thread blocks.
pub record Round : Type 0 where
  pub stop : Bool
  pub ready : PollResult
  pub later : Option (List Socket)

-- What the other side decides during one call of `update_stub`: the text that its blocking read
-- returns, the value of `arg->stop` behind it, and the value that the caller reads where the
-- function returns none.
pub record Turn : Type 0 where
  pub reply : List ℕ
  pub stop : Bool
  pub garbage : ℤ

-- What the thread does to the pipes and flags that it shares with `main`, one access to a shared
-- variable or pipe at a time; a read of a pipe comes with the test of `arg->stop` behind it.
pub data ThreadEvent : Type 0 where
  -- `arg->stop` is read
  looked : (stop : Bool) → ThreadEvent
  -- the first text is read, without a test of the flag
  began : (text : List ℕ) → ThreadEvent
  said : (text : List ℕ) → ThreadEvent
  heard : (text : List ℕ) → (stop : Bool) → ThreadEvent
  -- `arg->is_blocked` is set
  raised : ThreadEvent
  -- `arg->is_blocked` is taken back
  woke : ThreadEvent

-- The thread's variables: the time left in the round, what it did to pipes and flags, what it sent to
-- the sockets, and the turns to come.
pub record ThreadState : Type 0 where
  pub curr : ℤ
  pub did : List ThreadEvent
  pub sent : List Sent
  pub turns : List Turn

-- The thread goes on, has finished by `pthread_exit`, jumped to `repeat`, or has used all turns.
pub data Outcome (A : Type 0) : Type 0 where
  going : A → ThreadState → Outcome A
  finished : ThreadState → Outcome A
  repeat : ThreadState → Outcome A
  no_turn : Outcome A

abbrev pub Act : Type 0 → Type 0
Act A = ThreadState → Outcome A

infixl 5 ◌>>=◌ ◌>>◌
abbrev pub ◌>>=◌ : {A B : Type 0} → Act A → (A → Act B) → Act B
◌>>=◌ m f s = elim (m s) [
  | going a s' ↦ f a s'
  | finished s' ↦ finished s'
  | repeat s' ↦ repeat s'
  | no_turn ↦ no_turn
]

abbrev pub ◌>>◌ : {B : Type 0} → Act (Unit {0}) → Act B → Act B
m >> k = m >>= λ _. k

-- what a call of `update_stub` with a name does, by what it sent, and the test behind it
abbrev pub stub_events : Option (List ℕ) → (reply : List ℕ) → (stop : Bool) → List ThreadEvent
stub_events none reply stop = looked stop ∷ []
stub_events (some text) reply stop = said text ∷ heard reply stop ∷ []

-- the value of `update_stub(..)`, as its caller compares it with 0
unfoldable pub stub_value : StubResult → ℤ → ℤ
stub_value success garbage = pos 1
stub_value exiting garbage = negsuc 1
stub_value no_value garbage = garbage

-- `if (update_stub(.., name) < 0 || arg->stop) finish_thread(..)`, by the effect of the call
unfoldable pub guard_stub :
    StubEffect → List ThreadEvent → (garbage : ℤ) → List Turn → Bool → Act (Unit {0})
unfolding stub_value
guard_stub e events garbage turns stop s =
    let s' : ThreadState = record s {
      curr = e.curr_round_time_left;
      did = s.did ++ events;
      turns = turns;
    } in
    if ltb_ℤ (stub_value e.result garbage) (pos 0) || stop then finished s' else going tt s'

with_turn : {A : Type 0} → List Turn → (Turn → List Turn → Outcome A) → Outcome A
with_turn [] k = no_turn
with_turn (t ∷ ts) k = k t ts

-- `update_stub(.., name)` and the test behind it, by the cost that the table holds for the name
unfoldable pub charge_cost : Option ℤ → Act (Unit {0})
unfolding with_turn guard_stub update_stub_after
charge_cost cost s = with_turn s.turns λ t ts.
    let e = update_stub_after cost s.curr t.reply in
    guard_stub e (stub_events e.sent t.reply t.stop) t.garbage ts t.stop s

-- The first call, with NULL for the name: `arg->stop` is not tested.
unfoldable pub start : Act (Unit {0})
unfolding with_turn guard_stub update_stub_first
start s =
    with_turn s.turns
      λ t ts. guard_stub (update_stub_first t.reply) (began t.reply ∷ []) t.garbage ts false s

-- The part before a call that blocks, and the part behind it.
abbrev pub announcement : List ThreadEvent
announcement = raised ∷ said (pipe_send thread_blocked) ∷ []

unfoldable pub announce_block : Act (Unit {0})
announce_block s = going tt (record s { curr = pos 0; did = s.did ++ announcement })

unfoldable pub resume : Act (Unit {0})
unfolding with_turn pipe_read
resume s = with_turn s.turns λ t ts.
    let curr = pipe_read t.reply in
    let s' : ThreadState = record s {
      curr = curr;
      did = s.did ++ woke ∷ heard t.reply t.stop ∷ [];
      turns = ts;
    } in
    if leb_ℤ curr (pos 0) || t.stop then finished s' else going tt s'

-- `if (arg->stop) finish_thread(..)`
unfoldable pub look : Bool → Act (Unit {0})
look stop s =
    let s' : ThreadState = record s { did = s.did ++ looked stop ∷ [] } in
    if stop then finished s' else going tt s'

-- `times` is the table of costs, as `update_stub` looks it up.
module _ (times : Cost → Option ℤ) (route : List ℕ → ℤ) where
  unfoldable pub charge : Cost → Act (Unit {0})
  unfolding charge_cost
  charge c = charge_cost (times c)

  unfoldable pub send : List ℕ → ℕ → Act (Unit {0})
  send p idx s =
      going tt (record s { sent = s.sent ++ (record { pkt = p; dst_sock_idx = idx }) ∷ [] })

  -- One readable socket.
  unfoldable pub forward_one : Socket → Act (Unit {0})
  unfolding charge send
  forward_one not_ready = λ s. going tt s
  forward_one nothing_read = do charge flush_buffer; charge recvfrom
  forward_one (packet p) = do
    charge flush_buffer
    charge recvfrom
    charge get_dst_sock_idx
    elim (route p) [ pos idx ↦ send p idx >> charge send_packet | negsuc _ ↦ (λ s. repeat s) ]

  abbrev is_ready : Socket → Bool
  is_ready not_ready = false
  is_ready nothing_read = true
  is_ready (packet p) = true

  -- The pass over the sockets; the result is `runnable`.
  unfoldable pub forward_all : List Socket → Bool → Act Bool
  unfolding forward_one
  forward_all [] runnable = λ s. going runnable s
  forward_all (sock ∷ socks) runnable =
      forward_one sock >> forward_all socks (is_ready sock || runnable)

  -- The block: `later` is what the endless `poll` finds, with a readable socket among it, and
  -- `none` its failure; an interrupted call is made again.
  unfoldable pub block_and_resume : Option (List Socket) → Act (Unit {0})
  unfolding announce_block resume forward_all
  block_and_resume later = do
    announce_block
    elim later [
      | none ↦ (λ s. finished s)
      | some socks ↦ (do resume; _ ← forward_all socks false; λ s. going tt s)
    ]

  -- One round of the outer loop, from `repeat` on: the test of `arg->stop`, a `poll`, and the pass
  -- over the sockets. Where none was readable the thread blocks, and goes on at `skip`.
  unfoldable pub thread_round :
      (stop : Bool) → PollResult → (later : Option (List Socket)) → Act (Unit {0})
  unfolding look charge forward_all block_and_resume
  thread_round stop r later = do
    look stop
    charge poll
    elim r [
      | interrupted ↦ (λ s. going tt s)
      | failed ↦ (λ s. finished s)
      | polled socks ↦ (do
        runnable ← forward_all socks false
        if runnable then (λ s. going tt s) else block_and_resume later)
    ]

  -- The outer loop for these rounds: `repeat`, `continue` and the end of its body all come back to
  -- its head.
  unfoldable pub thread_loop : List Round → Act (Unit {0})
  unfolding thread_round
  thread_loop [] s = going tt s
  thread_loop (r ∷ rs) s = elim (thread_round r.stop r.ready r.later s) [
    | going a s' ↦ thread_loop rs s'
    | finished s' ↦ finished s'
    | repeat s' ↦ thread_loop rs s'
    | no_turn ↦ no_turn
  ]

  -- The thread from its first call of `update_stub` on.
  unfoldable pub run_thread : List Round → Act (Unit {0})
  unfolding start thread_loop
  run_thread rounds = start >> thread_loop rounds
