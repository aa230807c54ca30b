-- ===== src/RouterThread/Refines.antt =====
-- The code of the thread in src/routing/utils.c against the thread of Rounds: each part of it, and
-- the whole, does turn by turn what a sequence of that thread's steps does.
use vt_mechanisms.Prelude.{
  ℕ, refl, sym, subst, Bool, true, false, List, [], ◌∷◌, ◌++◌, Option, none, some, if◌then◌else◌, ℤ,
  pos, negsuc, inl, inr, append-nil, append_assoc,
}
use vt_mechanisms.Stub.{
  Cost, update_stub_after, pipe_read, flush_buffer, recvfrom, get_dst_sock_idx, send_packet, poll,
}
use vt_mechanisms.Rounds.{fail_poll, fail_polling, block, announce}
use vt_mechanisms.RouterThread.Play.{fails, falls}
use vt_mechanisms.RouterThread.{finished}
use vt_mechanisms.Router.{
  Socket, not_ready, nothing_read, packet, PollResult, interrupted, failed, polled,
}
use vt_mechanisms.Rounds.{running, after_reply}
use vt_mechanisms.RouterThread.{
  ThreadEvent, looked, announcement, woke, heard, look, ◌>>=◌, ThreadState, going, repeat, Act,
  ◌>>◌, guard_stub, with_turn, stub_events, charge_cost, charge, send, forward_one, forward_all,
  announce_block, resume, block_and_resume, thread_round,
}
use vt_mechanisms.RouterThread.Sends.{nil_or_cons}
use vt_mechanisms.RouterThread.Turns.{charge_turn, resume_turn}
use vt_mechanisms.RouterThread.Play.{over, looks, Replied, Refines, Refines-bind, Ran-same, tested}
use vt_mechanisms.Rounds.Progress.{done, ◌then◌}
use vt_mechanisms.Rounds.{see_stop}

pub stays-Refines : Refines {A = Unit {0}} (λ s. going tt s)
stays-Refines s r = Ran-same (running s.curr) s s refl refl

pub charge_cost-Refines : (cost : Option ℤ) → Refines (charge_cost cost)
unfolding charge_cost guard_stub
charge_cost-Refines cost s r = elim (nil_or_cons s.turns) [
  | inl none_left ↦ rw (none_left, with_turn) tt
  | inr (u, ts, more) ↦
      let (d, rest, whole) = (subst Replied more r).0 in
      let e = update_stub_after cost s.curr u.reply in
      let s' : ThreadState = record s {
        curr = e.curr_round_time_left;
        did = s.did ++ stub_events e.sent u.reply u.stop;
        turns = ts;
      } in
      simp (more, with_turn)
        (tested (running s.curr) s s' u (stub_events e.sent u.reply u.stop) _ more refl
          (charge_turn u.reply d rest whole cost s.curr u.garbage u.stop))
]

pub block-Refines : Refines (announce_block >> resume)
unfolding announce_block resume with_turn pipe_read after_reply
block-Refines s r = elim (nil_or_cons s.turns) [
  | inl none_left ↦ rw none_left tt
  | inr (u, ts, more) ↦
      let (d, rest, whole) = (subst Replied more r).0 in
      let answer : List ThreadEvent = woke ∷ heard u.reply u.stop ∷ [] in
      let s' : ThreadState = record s {
        curr = pipe_read u.reply;
        did = (s.did ++ announcement) ++ answer;
        turns = ts;
      } in
      simp (more) (
        tested (running s.curr) s s' u (announcement ++ answer) _ more
          (append_assoc s.did announcement answer) (resume_turn u.reply d rest whole s.curr u.stop))
]

-- `arg->stop` at the head of a round
pub look-Refines : (stop : Bool) → Refines (look stop)
unfolding look
look-Refines true s r =
    ([], looked true ∷ [], refl, refl, looks true (λ m i o b time. see_stop s.curr then done) over)
look-Refines false s r =
    ([], looked false ∷ [], refl, refl, looks false (λ m i o b time. done) over)

module _ (times : Cost → Option ℤ) (route : List ℕ → ℤ) where
  charge-Refines : (c : Cost) → Refines (charge times route c)
  unfolding charge
  charge-Refines c = charge_cost-Refines (times c)

  send-Refines : (p : List ℕ) (idx : ℕ) → Refines (send times route p idx)
  unfolding send
  send-Refines p idx s r = ([], [], refl, sym (append-nil s.did), over)

  routed-Refines :
      (p : List ℕ) (idx : ℤ)
      → Refines {A = Unit {0}} (elim idx [
        | pos i ↦ send times route p i >> charge times route send_packet
        | negsuc _ ↦ (λ s. repeat s)
      ])
  routed-Refines p (pos i) = Refines-bind _ _ (send-Refines p i) λ _. charge-Refines send_packet
  routed-Refines p (negsuc _) = λ s r. Ran-same (running s.curr) s s refl refl

  forward_one-Refines : (sock : Socket) → Refines (forward_one times route sock)
  unfolding forward_one
  forward_one-Refines not_ready = stays-Refines
  forward_one-Refines nothing_read =
      Refines-bind _ _ (charge-Refines flush_buffer) λ _. charge-Refines recvfrom
  forward_one-Refines (packet p) = Refines-bind _ _ (charge-Refines flush_buffer) λ _.
      Refines-bind _ _ (charge-Refines recvfrom)
        λ _. Refines-bind _ _ (charge-Refines get_dst_sock_idx) λ _. routed-Refines p (route p)

  forward_all-Refines :
      (socks : List Socket) (runnable : Bool) → Refines (forward_all times route socks runnable)
  unfolding forward_all
  forward_all-Refines [] runnable = λ s r. Ran-same (running s.curr) s s refl refl
  forward_all-Refines (sock ∷ socks) runnable =
      Refines-bind _ _ (forward_one-Refines sock) λ _. forward_all-Refines socks _

  block_and_resume-Refines :
      (later : List Socket) → Refines (block_and_resume times route (some later))
  unfolding block_and_resume announce_block
  block_and_resume-Refines later =
      Refines-bind _ _ block-Refines
        λ _. Refines-bind _ _ (forward_all-Refines later false) λ _. stays-Refines

  if-Refines :
      (b : Bool) (m m' : Act (Unit {0}))
      → Refines m
      → Refines m'
      → Refines (λ s. (if b then m else m') s)
  if-Refines true m m' r r' = r
  if-Refines false m m' r r' = r'

  -- where `poll` fails the thread is finished
  failed-Refines : Refines {A = Unit {0}} (λ s. finished s)
  failed-Refines s r = (
    [],
    [],
    refl,
    sym (append-nil s.did),
    fails (λ stop m i o b time. fail_poll s.curr then done) over,
  )

  fallen-Refines : Refines (block_and_resume times route none)
  unfolding block_and_resume announce_block
  fallen-Refines s r = (
    [],
    announcement,
    refl,
    refl,
    falls (λ m i o b stop time. block s.curr then done)
        (λ m i o b stop time. announce then fail_polling then done) over,
  )

  blocking-Refines : (later : Option (List Socket)) → Refines (block_and_resume times route later)
  blocking-Refines none = fallen-Refines
  blocking-Refines (some socks) = block_and_resume-Refines socks

  polled-Refines :
      (r : PollResult) (later : Option (List Socket))
      → Refines {A = Unit {0}} (elim r [
        | interrupted ↦ (λ s. going tt s)
        | failed ↦ (λ s. finished s)
        | polled socks ↦
            (forward_all times route socks false >>= λ runnable.
            if runnable then (λ s. going tt s) else block_and_resume times route later)
      ])
  polled-Refines interrupted later = stays-Refines
  polled-Refines failed later = failed-Refines
  polled-Refines (polled socks) later =
      Refines-bind _ _ (forward_all-Refines socks false)
        λ runnable. if-Refines runnable _ _ stays-Refines (blocking-Refines later)

  pub round-Refines :
      (stop : Bool) (r : PollResult) (later : Option (List Socket))
      → Refines (thread_round times route stop r later)
  unfolding thread_round
  round-Refines stop r later =
      Refines-bind _ _ (look-Refines stop)
        λ _. Refines-bind _ _ (charge-Refines poll) λ _. polled-Refines r later
