-- ===== src/Router/Forwards.antt =====
-- What one pass over the sockets sends, and when the loop blocks.
use vt_mechanisms.Prelude.{
  ℕ, ◌≡◌, refl, Bool, true, false, ◌||◌, List, [], ◌∷◌, ◌++◌, arith, ℤ, pos, negsuc, if◌then◌else◌,
  ◌⊎◌, inl, inr, ap, ◌∙◌,
}
use vt_mechanisms.Router.{
  Socket, not_ready, nothing_read, packet, Sent, forward, working, blocked, polled, poll_step,
}

-- the packets that the pass would read, in the order of the sockets
abbrev pub packets : List Socket → List (List ℕ)
packets [] = []
packets (not_ready ∷ socks) = packets socks
packets (nothing_read ∷ socks) = packets socks
packets (packet p ∷ socks) = p ∷ packets socks

abbrev pub any_ready : List Socket → Bool
any_ready [] = false
any_ready (not_ready ∷ socks) = any_ready socks
any_ready (nothing_read ∷ socks) = true
any_ready (packet p ∷ socks) = true

-- the packets before the first without a route, each with the index that its route gives
abbrev pub routed_prefix : (List ℕ → ℤ) → List (List ℕ) → List Sent
routed_prefix route [] = []
routed_prefix route (p ∷ ps) = elim (route p) [
  | pos idx ↦ (record { pkt = p; dst_sock_idx = idx }) ∷ routed_prefix route ps
  | negsuc _ ↦ []
]

abbrev pub some_unrouted : (List ℕ → ℤ) → List (List ℕ) → Bool
some_unrouted route [] = false
some_unrouted route (p ∷ ps) = elim (route p) [ pos idx ↦ some_unrouted route ps | negsuc _ ↦ true ]

ℤ-cases : (r : ℤ) → ((n : ℕ) × (r ≡ pos n)) ⊎ ((n : ℕ) × (r ≡ negsuc n))
ℤ-cases (pos n) = inl (n, refl)
ℤ-cases (negsuc n) = inr (n, refl)

module _ (route : List ℕ → ℤ) where
  -- A pass sends each packet that it reads to the socket of its route, in order, up to the first
  -- packet without one; there it starts again. `runnable` says whether a socket was readable.
  pub forward_lem :
      (socks : List Socket) (runnable : Bool)
      → ((forward route socks runnable).sent ≡ routed_prefix route (packets socks))
        × ((forward route socks runnable).repeated ≡ some_unrouted route (packets socks))
        × ((forward route socks runnable).runnable ≡ (any_ready socks || runnable))
  unfolding forward
  forward_lem [] runnable = (refl, refl, refl)
  forward_lem (not_ready ∷ socks) runnable = forward_lem socks runnable
  forward_lem (nothing_read ∷ socks) runnable =
      let (sent, again, ran) = forward_lem socks true in (sent, again, ground arith)
  forward_lem (packet p ∷ socks) runnable = elim (ℤ-cases (route p)) [
    | inl (idx, e) ↦
        let (sent, again, ran) = forward_lem socks true in
        (
          rw (e, forward) (ap (λ rest. (record { pkt = p; dst_sock_idx = idx }) ∷ rest) sent),
          rw (e, forward) again,
          rw (e, forward) (ran ∙ ground arith),
        )
    | inr (n, e) ↦ (rw (e, forward), rw (e, forward), rw (e, forward))
  ]

  -- After a poll in the outer loop the router blocks exactly when no socket was readable, and what
  -- it has sent grows by the packets of the pass.
  pub poll_step_lem :
      (sent : List Sent) (socks : List Socket)
      → ((poll_step route working sent (polled socks)).mode
          ≡ (if any_ready socks then working else blocked))
        × ((poll_step route working sent (polled socks)).sent
            ≡ sent ++ routed_prefix route (packets socks))
  unfolding poll_step
  poll_step_lem sent socks =
      let (out, again, ran) = forward_lem socks false in
      (rw (again, ran) (mode_eq socks), ap (λ rest. sent ++ rest) out)
    where
      mode_eq :
          (socks : List Socket)
          → (if some_unrouted route (packets socks) || (any_ready socks || false)
              then working
              else blocked)
            ≡ (if any_ready socks then working else blocked)
      mode_eq [] = refl
      mode_eq (not_ready ∷ socks) = mode_eq socks
      mode_eq (nothing_read ∷ socks) = ground arith
      mode_eq (packet p ∷ socks) = ground arith
