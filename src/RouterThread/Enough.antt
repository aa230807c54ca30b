-- ===== src/RouterThread/Enough.antt =====
-- How many turns the thread of src/routing/utils.c takes at most: one for each call of
-- `update_stub` and each blocking read.
use vt_mechanisms.Prelude.{
  ℕ, ◌+◌, ◌≤◌, ◌≡◌, refl, Bool, true, false, List, [], ◌∷◌, Option, none, some, arith, ℤ, pos,
  negsuc, length, if◌then◌else◌,
}
use vt_mechanisms.Stub.{
  Cost, StubEffect, flush_buffer, update_stub_after, update_stub_first, recvfrom, get_dst_sock_idx,
  send_packet, poll,
}
use vt_mechanisms.Router.{
  Socket, not_ready, nothing_read, packet, PollResult, interrupted, failed, polled,
}
use vt_mechanisms.RouterThread.{
  ThreadEvent, look, Turn, ThreadState, Outcome, going, finished, repeat, no_turn, Act, ◌>>=◌, ◌>>◌,
  with_turn, charge_cost, charge, send, forward_one, forward_all, announce_block, resume,
  block_and_resume, thread_round, guard_stub, Round, start, thread_loop, run_thread,
}

-- the turns do not run out, and `k` are left where the thread goes on
abbrev pub Leaves : {A : Type 0} → ℕ → Outcome A → Type 0
Leaves k (going a s) = k ≤ length s.turns
Leaves k (finished s) = Unit
Leaves k (repeat s) = k ≤ length s.turns
Leaves k no_turn = ⊥

abbrev pub Takes : {A : Type 0} → ℕ → Act A → Type 0
Takes n m = (s : ThreadState) (k : ℕ) → n + k ≤ length s.turns → Leaves k (m s)

Leaves-bind :
    {A B : Type 0} (n : ℕ) (o : Outcome A) (f : A → Act B) (s : ThreadState) (k : ℕ)
    → Leaves (n + k) o
    → ((a : A) → Takes n (f a))
    → Leaves k (((λ (_ : ThreadState). o) >>= f) s)
Leaves-bind n (going a s') f s k l g = g a s' k l
Leaves-bind n (finished s') f s k l g = tt
Leaves-bind n (repeat s') f s k l g = omega (arith, l)
Leaves-bind n no_turn f s k l g = l

pub Takes-bind :
    {A B : Type 0} (n n' : ℕ) (m : Act A) (f : A → Act B)
    → Takes n m
    → ((a : A) → Takes n' (f a))
    → Takes (n + n') (m >>= f)
Takes-bind n n' m f g h s k le = Leaves-bind n' (m s) f s k (g s (n' + k) (omega arith)) h

pub Takes-mono : {A : Type 0} (n n' : ℕ) (m : Act A) → n ≤ n' → Takes n m → Takes n' m
Takes-mono n n' m le t s k le' = t s k (omega arith)

tested-Leaves :
    (b : Bool) (s : ThreadState) (k : ℕ)
    → k ≤ length s.turns
    → Leaves {A = Unit {0}} k (if b then finished s else going tt s)
tested-Leaves true s k le = tt
tested-Leaves false s k le = le

if-Takes :
    (n : ℕ) (b : Bool) (m m' : Act (Unit {0}))
    → Takes n m
    → Takes n m'
    → Takes n (λ s. (if b then m else m') s)
if-Takes n true m m' t t' = t
if-Takes n false m m' t t' = t'

guard-Leaves :
    (e : StubEffect) (events : List ThreadEvent) (garbage : ℤ) (us : List Turn) (b : Bool)
    (s : ThreadState) (k : ℕ)
    → k ≤ length us
    → Leaves k (guard_stub e events garbage us b s)
unfolding guard_stub
guard-Leaves e events garbage us b s k le = tested-Leaves _ _ k le

next_turn :
    (ts : List Turn) (k : ℕ)
    → 1 + k ≤ length ts
    → (u : Turn) × (us : List Turn) × (ts ≡ u ∷ us) × (k ≤ length us)
next_turn [] k le = let bad : ⊥ = omega (arith, le) in elim bad [ ]
next_turn (u ∷ us) k le = (u, us, refl, omega (arith, le))

-- four calls for each socket at most
abbrev calls : List Socket → ℕ
calls [] = 0
calls (sock ∷ socks) = 4 + calls socks

-- the turns of a block and of the pass behind it
abbrev later_calls : Option (List Socket) → ℕ
later_calls none = 0
later_calls (some socks) = 1 + calls socks

-- the turns of one round of the outer loop, and of all
abbrev round_calls : PollResult → Option (List Socket) → ℕ
round_calls (polled socks) later = 1 + (calls socks + later_calls later)
round_calls _ later = 1

abbrev loop_calls : List Round → ℕ
loop_calls [] = 0
loop_calls (r ∷ rs) = round_calls r.ready r.later + loop_calls rs

abbrev pub run_calls : List Round → ℕ
run_calls rounds = 1 + loop_calls rounds

pub charge_cost-Takes : (cost : Option ℤ) → Takes 1 (charge_cost cost)
unfolding charge_cost
charge_cost-Takes cost s k le =
    let (u, us, more, enough) = next_turn s.turns k le in
    simp (more, with_turn)
      (guard-Leaves (update_stub_after cost s.curr u.reply) _ u.garbage us u.stop s k enough)

pub start-Takes : Takes 1 start
unfolding start
start-Takes s k le =
    let (u, us, more, enough) = next_turn s.turns k le in
    simp (more, with_turn)
      (guard-Leaves (update_stub_first u.reply) _ u.garbage us false s k enough)

pub resume-Takes : Takes 1 (announce_block >> resume)
unfolding announce_block resume with_turn
resume-Takes s k le =
    let (u, us, more, enough) = next_turn s.turns k le in simp more (tested-Leaves _ _ k enough)

pub look-Takes : (stop : Bool) → Takes 0 (look stop)
unfolding look
look-Takes true s k le = tt
look-Takes false s k le = omega (arith, le)

pub stays-Takes : Takes {A = Unit {0}} 0 (λ s. going tt s)
stays-Takes s k le = omega (arith, le)

module _ (times : Cost → Option ℤ) (route : List ℕ → ℤ) where
  charge-Takes : (c : Cost) → Takes 1 (charge times route c)
  unfolding charge
  charge-Takes c = charge_cost-Takes (times c)

  send-Takes : (p : List ℕ) (idx : ℕ) → Takes 0 (send times route p idx)
  unfolding send
  send-Takes p idx s k le = omega (arith, le)

  routed-Takes :
      (p : List ℕ) (idx : ℤ)
      → Takes {A = Unit {0}} 1 (elim idx [
        | pos i ↦ send times route p i >> charge times route send_packet
        | negsuc _ ↦ (λ s. repeat s)
      ])
  routed-Takes p (pos i) = Takes-bind 0 1 _ _ (send-Takes p i) λ _. charge-Takes send_packet
  routed-Takes p (negsuc _) = λ s k le. omega (arith, le)

  forward_one-Takes : (sock : Socket) → Takes 4 (forward_one times route sock)
  unfolding forward_one
  forward_one-Takes not_ready = λ s k le. omega (arith, le)
  forward_one-Takes nothing_read =
      Takes-mono 2 4 _ (omega arith)
        (Takes-bind 1 1 _ _ (charge-Takes flush_buffer) λ _. charge-Takes recvfrom)
  forward_one-Takes (packet p) = Takes-bind 1 3 _ _ (charge-Takes flush_buffer) λ _.
      Takes-bind 1 2 _ _ (charge-Takes recvfrom)
        λ _. Takes-bind 1 1 _ _ (charge-Takes get_dst_sock_idx) λ _. routed-Takes p (route p)

  forward_all-Takes :
      (socks : List Socket) (runnable : Bool)
      → Takes (calls socks) (forward_all times route socks runnable)
  unfolding forward_all
  forward_all-Takes [] runnable = λ s k le. omega (arith, le)
  forward_all-Takes (sock ∷ socks) runnable =
      Takes-bind 4 (calls socks) _ _ (forward_one-Takes sock) λ _. forward_all-Takes socks _

  block-Takes :
      (later : Option (List Socket))
      → Takes (later_calls later) (block_and_resume times route later)
  unfolding block_and_resume announce_block
  block-Takes none = λ s k le. tt
  block-Takes (some socks) = Takes-bind 1 (calls socks) _ _ resume-Takes λ _.
      Takes-mono (calls socks + 0) (calls socks) _ (omega arith)
        (Takes-bind (calls socks) 0 _ _ (forward_all-Takes socks false) λ _. stays-Takes)

  polled-Takes :
      (r : PollResult) (later : Option (List Socket))
      → Takes {A = Unit {0}} (round_calls r later) (
          charge times route poll >> elim r [
            | interrupted ↦ (λ s. going tt s)
            | failed ↦ (λ s. finished s)
            | polled socks ↦
                (forward_all times route socks false >>= λ runnable.
                if runnable then (λ s. going tt s) else block_and_resume times route later)
          ])
  polled-Takes interrupted later = Takes-bind 1 0 _ _ (charge-Takes poll) λ _. stays-Takes
  polled-Takes failed later = Takes-bind 1 0 _ _ (charge-Takes poll) λ _ s k le. tt
  polled-Takes (polled socks) later =
      Takes-bind 1 (calls socks + later_calls later) _ _ (charge-Takes poll) λ _.
        Takes-bind (calls socks) (later_calls later) _ _ (forward_all-Takes socks false) λ runnable.
          if-Takes (later_calls later) runnable _ _ (λ s k le. omega (arith, le))
            (block-Takes later)

  round-Takes :
      (stop : Bool) (r : PollResult) (later : Option (List Socket))
      → Takes (round_calls r later) (thread_round times route stop r later)
  unfolding thread_round
  round-Takes stop r later =
      Takes-mono (0 + round_calls r later) (round_calls r later) _ (omega arith)
        (Takes-bind 0 (round_calls r later) _ _ (look-Takes stop) λ _. polled-Takes r later)

  next_round :
      (n k : ℕ) (rs : List Round) (o : Outcome (Unit {0}))
      → Takes n (thread_loop times route rs)
      → Leaves (n + k) o
      → Leaves {A = Unit {0}} k (elim o [
        | going a s' ↦ thread_loop times route rs s'
        | finished s' ↦ finished s'
        | repeat s' ↦ thread_loop times route rs s'
        | no_turn ↦ no_turn
      ])
  next_round n k rs (going a s') t l = t s' k l
  next_round n k rs (finished s') t l = tt
  next_round n k rs (repeat s') t l = t s' k l
  next_round n k rs no_turn t l = l

  loop-Takes : (rounds : List Round) → Takes (loop_calls rounds) (thread_loop times route rounds)
  unfolding thread_loop
  loop-Takes [] = stays-Takes
  loop-Takes (r ∷ rs) = λ s k le.
      next_round (loop_calls rs) k rs (thread_round times route r.stop r.ready r.later s)
        (loop-Takes rs)
        (round-Takes r.stop r.ready r.later s (loop_calls rs + k) (omega (arith, le)))

  pub run_thread-Leaves :
      (rounds : List Round) (s : ThreadState)
      → run_calls rounds ≤ length s.turns
      → Leaves 0 (run_thread times route rounds s)
  unfolding run_thread
  run_thread-Leaves rounds s le =
      Takes-bind 1 (loop_calls rounds) _ _ start-Takes (λ _. loop-Takes rounds) s 0
        (omega (arith, le))
