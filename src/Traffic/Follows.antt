-- ===== src/Traffic/Follows.antt =====
-- The threads of the traffic programs of src/routing/test against the thread of Rounds: what they do
-- is a sequence of that thread's steps, and takes so many turns at most.
use vt_mechanisms.Prelude.{
  ℕ, ◌+◌, ◌-◌, ◌*◌, ◌≤◌, refl, sym, Bool, true, false, List, [], ◌∷◌, arith, length, if◌then◌else◌,
  append-nil, pos, ltb_ℤ, ◌==ℤ◌, codes,
}
use vt_mechanisms.Rounds.{running, starting}
use vt_mechanisms.RouterThread.{
  ThreadState, going, Act, ◌>>=◌, ◌>>◌, look, start, announce_block, resume,
}
use vt_mechanisms.RouterThread.Play.{
  over, Replied, Follows, Refines, Refines-bind, Follows-bind, Ran-same,
}
use vt_mechanisms.RouterThread.Refines.{look-Refines, charge_cost-Refines, block-Refines}
use vt_mechanisms.RouterThread.Whole.{start-Follows}
use vt_mechanisms.RouterThread.Enough.{
  look-Takes, Leaves, Takes, Takes-bind, Takes-mono, charge_cost-Takes, start-Takes, resume-Takes,
}
use vt_mechanisms.Traffic.{
  Exchange, Costs, charge_name, send_to, client_round, client_loop, run_client, server_round,
  server_loop, run_server, request, fill_buffer, buf_size,
}

-- An act follows the thread of Rounds and takes at most so many turns.
record Fits {A : Type 0} (n : ℕ) (m : Act A) : Type 0 where
  follows : Refines m
  takes : Takes n m

Fits-bind :
    {A B : Type 0} (n n' : ℕ) (m : Act A) (f : A → Act B)
    → Fits n m
    → ((a : A) → Fits n' (f a))
    → Fits (n + n') (m >>= f)
Fits-bind n n' m f g h = record {
  follows = Refines-bind m f g.follows λ a. (h a).follows;
  takes = Takes-bind n n' m f g.takes λ a. (h a).takes;
}

Fits-if :
    {A : Type 0} (n : ℕ) (b : Bool) (m m' : Act A)
    → Fits n m
    → Fits n m'
    → Fits n (if b then m else m')
Fits-if n true m m' f f' = f
Fits-if n false m m' f f' = f'

Fits-mono : {A : Type 0} (n n' : ℕ) (m : Act A) → n ≤ n' → Fits n m → Fits n' m
Fits-mono n n' m le f = record { follows = f.follows; takes = Takes-mono n n' m le f.takes }

going-Fits : {A : Type 0} (n : ℕ) (a : A) → Fits n (λ s. going a s)
going-Fits n a = record {
  follows = λ s r. Ran-same (running s.curr) s s refl refl;
  takes = λ s k le. omega (arith, le);
}

send_to-Fits : (buffer : List ℕ) → Fits 0 (send_to buffer)
unfolding send_to
send_to-Fits buffer = record {
  follows = λ s r. ([], [], refl, sym (append-nil s.did), over);
  takes = λ s k le. omega (arith, le);
}

look-Fits : (stop : Bool) → Fits 0 (look stop)
look-Fits stop = record { follows = look-Refines stop; takes = look-Takes stop }

block-Fits : Fits 1 (announce_block >> resume)
block-Fits = record { follows = block-Refines; takes = resume-Takes }

module _ (times : Costs) where
  charge-Fits : (name : List ℕ) → Fits 1 (charge_name times name)
  unfolding charge_name
  charge-Fits name = record {
    follows = charge_cost-Refines (times name);
    takes = charge_cost-Takes (times name);
  }

  client_round-Fits : (x : Exchange) (pkt_no : ℕ) → Fits 5 (client_round times x pkt_no)
  unfolding client_round
  client_round-Fits x pkt_no = Fits-bind 0 5 _ _ (look-Fits x.stop) λ _.
      Fits-bind 1 4 _ _ (charge-Fits (codes "flush_buffer")) λ _.
        Fits-bind 0 4 _ _ (send_to-Fits (request (pkt_no + 1))) λ _.
          Fits-bind 1 3 _ _ (charge-Fits (codes "send_to")) λ _.
            Fits-bind 1 2 _ _ (charge-Fits (codes "flush_buffer")) λ _.
              Fits-bind 1 1 _ _ block-Fits λ _.
                Fits-if 1 (ltb_ℤ (pos 0) x.received) _ _
                  (Fits-bind 1 0 _ _ (charge-Fits (codes "computation"))
                    λ _. going-Fits 0 (pkt_no + 1))
                  (going-Fits 1 pkt_no)

  server_round-Fits : (x : Exchange) → Fits 4 (server_round times x)
  unfolding server_round
  server_round-Fits x = Fits-bind 0 4 _ _ (look-Fits x.stop) λ _.
      Fits-bind 1 3 _ _ (charge-Fits (codes "flush_buffer")) λ _. Fits-bind 1 2 _ _ block-Fits λ _.
        Fits-if 2 (x.received ==ℤ pos 0) _ _ (going-Fits 2 tt) (
          Fits-bind 1 1 _ _ (charge-Fits (codes "fill_buffer")) λ _.
            Fits-bind 0 1 _ _ (send_to-Fits (fill_buffer (buf_size - 1)))
              λ _. charge-Fits (codes "sendto"))

  client_loop-Fits :
      (xs : List Exchange) (pkt_no : ℕ) → Fits (5 * length xs) (client_loop times xs pkt_no)
  unfolding client_loop
  client_loop-Fits [] pkt_no = going-Fits 0 pkt_no
  client_loop-Fits (x ∷ xs) pkt_no =
      Fits-mono (5 + 5 * length xs) (5 * length (x ∷ xs)) _ (omega arith)
        (Fits-bind 5 (5 * length xs) _ _ (client_round-Fits x pkt_no) (client_loop-Fits xs))

  server_loop-Fits : (xs : List Exchange) → Fits (4 * length xs) (server_loop times xs)
  unfolding server_loop
  server_loop-Fits [] = going-Fits 0 tt
  server_loop-Fits (x ∷ xs) =
      Fits-mono (4 + 4 * length xs) (4 * length (x ∷ xs)) _ (omega arith)
        (Fits-bind 4 (4 * length xs) _ _ (server_round-Fits x) λ _. server_loop-Fits xs)

  -- A client's thread whose reads return texts, with two turns and five for each round, does not run
  -- out of turns, and plays the thread of the rounds, turn by turn and for every state of `main`: what
  -- it did to the pipes and flags is what a sequence of that thread's steps does, and it ends at work
  -- with the same time left, or exited.
  pub run_client-Follows :
      (xs : List Exchange) (s : ThreadState)
      → Replied s.turns
      → 2 + 5 * length xs ≤ length s.turns
      → Leaves 0 (run_client times xs s) × Follows starting s (run_client times xs s)
  unfolding run_client
  run_client-Follows xs s r le =
      let rest = Fits-bind 1 (5 * length xs) _ _ block-Fits λ _. client_loop-Fits xs 0 in
      (
        Takes-bind 1 (1 + 5 * length xs) _ _ start-Takes (λ _. rest.takes) s 0 (omega (arith, le)),
        Follows-bind starting s (start s) _ r (start-Follows s r) λ _. rest.follows,
      )

  -- A server's thread whose reads return texts, with one turn and four for each round, does not run out
  -- of turns, and plays the thread of the rounds in the same way.
  pub run_server-Follows :
      (xs : List Exchange) (s : ThreadState)
      → Replied s.turns
      → 1 + 4 * length xs ≤ length s.turns
      → Leaves 0 (run_server times xs s) × Follows starting s (run_server times xs s)
  unfolding run_server
  run_server-Follows xs s r le = (
    Takes-bind 1 (4 * length xs) _ _ start-Takes (λ _. (server_loop-Fits xs).takes) s 0
        (omega (arith, le)),
    Follows-bind starting s (start s) _ r (start-Follows s r) λ _. (server_loop-Fits xs).follows,
  )
