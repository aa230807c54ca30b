-- ===== src/Stub/Account.antt =====
-- The countdown of a round: what the calls of `update_stub` leave, and what they report.
use vt_mechanisms.Prelude.{
  ℕ, ◌+◌, ◌-◌, ◌<◌, ◌≤◌, ◌≡◌, ap, ◌∙◌, false, List, [], ◌∷◌, some, none, arith, ℤ, pos, leb_ℤ, ◌-ℤ◌,
}
use vt_mechanisms.Stub.{update_stub_after, pipe_send, no_value}

abbrev pub sum : List ℕ → ℕ
sum [] = 0
sum (c ∷ cs) = c + sum cs

-- the time that is left after calls with these costs, one `update_stub` behind each
abbrev pub left_after : List ℕ → ℤ → (reply : List ℕ) → ℤ
left_after [] curr reply = curr
left_after (c ∷ cs) curr reply =
    left_after cs (update_stub_after (some (pos c)) curr reply).curr_round_time_left reply

sub_pos : (a b : ℕ) → b ≤ a → pos a -ℤ pos b ≡ pos (a - b)
unfolding ◌-ℤ◌
sub_pos a b h = ground arith

-- a call that does not use the time up takes its cost off
update_stub_after-left :
    (a c : ℕ) (reply : List ℕ)
    → c < a
    → update_stub_after (some (pos c)) (pos a) reply
      ≡ record { result = no_value; curr_round_time_left = pos (a - c); sent = none }
unfolding update_stub_after
update_stub_after-left a c reply h =
    let more : leb_ℤ (pos (a - c)) (pos 0) ≡ false = ground arith in
    rw (sub_pos a c (omega arith), more)

left_after_lem :
    (cs : List ℕ) (a : ℕ) (reply : List ℕ)
    → sum cs < a
    → left_after cs (pos a) reply ≡ pos (a - sum cs)
left_after_lem [] a reply h = ap pos (omega arith)
left_after_lem (c ∷ cs) a reply h =
    rw (update_stub_after-left a c reply (omega arith))
      (left_after_lem cs (a - c) reply (omega arith) ∙ ap pos (omega arith))

-- Once the calls have used up a round of `adv`, and not before, the thread reports by how much
-- they went over it: their whole cost less `adv`.
pub update_stub_reports :
    (adv : ℕ) (cs : List ℕ) (c : ℕ) (reply : List ℕ)
    → sum cs < adv
    → adv ≤ sum cs + c
    → (update_stub_after (some (pos c)) (left_after cs (pos adv) reply) reply).sent
      ≡ some (pipe_send (pos (sum cs + c - adv)))
unfolding update_stub_after ◌-ℤ◌
update_stub_reports adv cs c reply under over =
    rw (left_after_lem cs adv reply under) (ground arith)
