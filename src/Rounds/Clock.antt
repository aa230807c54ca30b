-- ===== src/Rounds/Clock.antt =====
-- The virtual time of one round: what `main` adds up against what the thread's calls cost.
use vt_mechanisms.Prelude.{ℕ, ◌+◌, ◌-◌, ◌≤◌, ◌<◌, ◌≡◌, ap, List, some, pos, arith}
use vt_mechanisms.Word.{sign_bit, +int-pos}
use vt_mechanisms.Stub.{pipe_send, pipe_read, update_stub_after}
use vt_mechanisms.Stub.Account.{sum, left_after, update_stub_reports}
use vt_mechanisms.Rounds.{elapse}
use vt_mechanisms.Rounds.Invariant.{pipe_read-pipe_send}

-- `main` after an answer that is not negative
elapse-pos :
    (time adv n : ℕ)
    → time + n + adv < sign_bit
    → elapse (pos time) adv (pos n) ≡ pos (time + n + adv)
unfolding elapse
elapse-pos time adv n small =
    rw (+int-pos time n (omega (arith, small)), +int-pos (time + n) adv small) (ground arith)

-- When the calls of a round of `adv` use it up with the cost `c` of the last one, and the clock of
-- `main` stays below 2^31 (from there on the `int` overflows), that clock moves, after the report is
-- read, by the whole cost of the calls.
pub elapse-update_stub :
    (time adv : ℕ) (cs : List ℕ) (c : ℕ) (reply text : List ℕ)
    → sum cs < adv
    → adv ≤ sum cs + c
    → time + (sum cs + c) < sign_bit
    → (update_stub_after (some (pos c)) (left_after cs (pos adv) reply) reply).sent ≡ some text
    → elapse (pos time) adv (pipe_read text) ≡ pos (time + (sum cs + c))
elapse-update_stub time adv cs c reply text under over small e =
    let sent = update_stub_reports adv cs c reply under over in
    let same : text ≡ pipe_send (pos (sum cs + c - adv)) = ground arith in
    let n = sum cs + c - adv in
    rw (same, pipe_read-pipe_send, elapse-pos time adv n (omega (arith, small, over)))
      (ap pos (omega (arith, over)))
