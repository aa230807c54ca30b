-- ===== src/Router/Directs.antt =====
-- What holds of all that the loop of src/routing/router_n.c sends.
use vt_mechanisms.Prelude.{ℕ, ◌≡◌, refl, sym, subst, List, [], ◌∷◌, ◌++◌, false, ℤ, pos, negsuc}
use vt_mechanisms.Router.{
  Socket, Sent, PollResult, interrupted, failed, polled, Mode, working, blocked, finished, State,
  forward, poll_step, forward_loop,
}
use vt_mechanisms.Router.Forwards.{packets, routed_prefix, forward_lem}

abbrev pub All : {A : Type 0} → (A → Type 0) → List A → Type 0
All P [] = Unit
All P (x ∷ xs) = P x × All P xs

All-append : {A : Type 0} (P : A → Type 0) (xs ys : List A) → All P xs → All P ys → All P (xs ++ ys)
All-append P [] ys a b = b
All-append P (x ∷ xs) ys a b = (a.0, All-append P xs ys a.1 b)

-- What holds of each packet with a route holds of all that the loop sends.
module _ (route : List ℕ → ℤ) (P : Sent → Type 0)
    (good : (p : List ℕ) (idx : ℕ)
      → route p ≡ pos idx
      → P (record { pkt = p; dst_sock_idx = idx })) where
  prefix-All : (ps : List (List ℕ)) → All P (routed_prefix route ps)
  prefix-All [] = tt
  prefix-All (p ∷ ps) = one (route p) refl (prefix-All ps)
    where
      one :
          (r : ℤ)
          → route p ≡ r
          → All P (routed_prefix route ps)
          → All P (elim r [
            | pos idx ↦ (record { pkt = p; dst_sock_idx = idx }) ∷ routed_prefix route ps
            | negsuc _ ↦ []
          ])
      one (pos idx) e rest = (good p idx e, rest)
      one (negsuc _) e rest = tt

  forward-All : (socks : List Socket) → All P (forward route socks false).sent
  forward-All socks =
      subst (All P) (sym (forward_lem route socks false).0) (prefix-All (packets socks))

  poll_step-All :
      (mode : Mode) (sent : List Sent) (r : PollResult)
      → All P sent
      → All P (poll_step route mode sent r).sent
  unfolding poll_step
  poll_step-All finished sent r a = a
  poll_step-All working sent interrupted a = a
  poll_step-All blocked sent interrupted a = a
  poll_step-All working sent failed a = a
  poll_step-All blocked sent failed a = a
  poll_step-All blocked sent (polled socks) a = a
  poll_step-All working sent (polled socks) a = All-append P sent _ a (forward-All socks)

  pub forward_loop-All :
      (rs : List PollResult) (s : State) → All P s.sent → All P (forward_loop route rs s).sent
  unfolding forward_loop
  forward_loop-All [] s a = a
  forward_loop-All (r ∷ rs) s a = forward_loop-All rs _ (poll_step-All s.mode s.sent r a)
