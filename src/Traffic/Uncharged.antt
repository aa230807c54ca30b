-- ===== src/Traffic/Uncharged.antt =====
-- The cost of `sendto` in src/routing/test/client_n_vt.c: `init_func_times` fills it in under "sendto",
-- but the thread asks for "send_to".
use vt_mechanisms.Prelude.{ℕ, ◌≡◌, ◌≢◌, refl, ap, List, [], ◌∷◌, codes}
use vt_mechanisms.Prelude.{◌+◌, Option, ltb_ℤ, pos, ℤ, if◌then◌else◌}
use vt_mechanisms.RouterThread.{
  ThreadState, Act, going, look, charge_cost, ◌>>=◌, ◌>>◌, start, announce_block, resume,
}
use vt_mechanisms.Traffic.{
  Costs, send_to, request, Exchange, charge_name, client_round, client_loop, run_client,
}

-- a round of the client, by the costs of its calls
round_by : (flush send compute : Option ℤ) → Exchange → ℕ → Act ℕ
unfolding look send_to request announce_block resume charge_cost
round_by flush send compute x pkt_no = do
  look x.stop
  charge_cost flush
  send_to (request (pkt_no + 1))
  charge_cost send
  charge_cost flush
  announce_block >> resume
  if ltb_ℤ (pos 0) x.received
      then (charge_cost compute >> (λ s. going (pkt_no + 1) s))
      else (λ s. going pkt_no s)

behind : (ℕ → Act ℕ) → (ℕ → Act ℕ) → ℕ → Act ℕ
behind m k n = m n >>= k

all_of : (ℕ → Act ℕ) → Act ℕ
all_of k = do start; announce_block >> resume; k 0

module _ (times times' : Costs)
    (same : (name : List ℕ) → name ≢ codes "sendto" → times name ≡ times' name) where
  flush : times (codes "flush_buffer") ≡ times' (codes "flush_buffer")
  flush = same (codes "flush_buffer") (λ e. cc)

  send : times (codes "send_to") ≡ times' (codes "send_to")
  send = same (codes "send_to") (λ e. cc)

  compute : times (codes "computation") ≡ times' (codes "computation")
  compute = same (codes "computation") (λ e. cc)

  charges_same :
      (x : Exchange)
      → round_by
          (times (codes "flush_buffer"))
          (times (codes "send_to"))
          (times (codes "computation"))
          x
        ≡ round_by
            (times' (codes "flush_buffer"))
            (times' (codes "send_to"))
            (times' (codes "computation"))
            x
  charges_same x = rw (flush, send, compute) refl

  round-same : (x : Exchange) → client_round times x ≡ client_round times' x
  unfolding client_round charge_name round_by
  round-same x = charges_same x

  steps_same :
      (x : Exchange) (k k' : ℕ → Act ℕ)
      → k ≡ k'
      → behind (client_round times x) k ≡ behind (client_round times' x) k'
  steps_same x k k' e = rw (round-same x, e) refl

  loop-same : (xs : List Exchange) → client_loop times xs ≡ client_loop times' xs
  unfolding client_loop behind
  loop-same [] = refl
  loop-same (x ∷ xs) = steps_same x (client_loop times xs) (client_loop times' xs) (loop-same xs)

  rest_same : (xs : List Exchange) → all_of (client_loop times xs) ≡ all_of (client_loop times' xs)
  rest_same xs = rw (loop-same xs) refl

  -- Two tables that differ at most in the cost of "sendto" make no difference to a run of the client's
  -- thread, whatever happens in its rounds: it is never charged for `sendto`.
  pub run_client-same :
      (xs : List Exchange) (s : ThreadState) → run_client times xs s ≡ run_client times' xs s
  unfolding run_client all_of
  run_client-same xs s = ap (λ m. m s) (rest_same xs)
