-- ===== src/RouterThread/Sends.antt =====
-- What the thread of src/routing/utils.c sends in a pass over its sockets, however the pass ends.
use vt_mechanisms.Prelude.{
  ℕ, ◌≡◌, refl, sym, ap, ◌∙◌, Bool, false, none, List, [], ◌∷◌, ◌++◌, Option, ℤ, pos, negsuc, arith,
  append-nil, append_assoc, inl, inr, ◌⊎◌,
}
use vt_mechanisms.Stub.{Cost, flush_buffer, recvfrom, get_dst_sock_idx, send_packet}
use vt_mechanisms.Router.{Sent, Socket, not_ready, nothing_read, packet}
use vt_mechanisms.Router.Forwards.{packets, routed_prefix}
use vt_mechanisms.RouterThread.{
  Turn, looked, ThreadState, Outcome, going, finished, repeat, no_turn, Act, ◌>>=◌, guard_stub,
  with_turn, ◌>>◌, start, announce_block, resume, charge_cost, charge, forward_one, forward_all,
  send,
}

-- what the state satisfies, by how the run came to it
abbrev pub Comes : {A : Type 0} → Outcome A → (on off : ThreadState → Type 0) → Type 0
Comes (going a s) on off = on s
Comes (finished s) on off = off s
Comes (repeat s) on off = off s
Comes no_turn on off = Unit

pub Comes-bind :
    {A B : Type 0} (o : Outcome A) (f : A → Act B) (s : ThreadState)
    (on off on' : ThreadState → Type 0)
    → Comes o on off
    → ((a : A) (s' : ThreadState) → on s' → Comes (f a s') on' off)
    → Comes (((λ (_ : ThreadState). o) >>= f) s) on' off
Comes-bind (going a s') f s on off on' c next = next a s' c
Comes-bind (finished s') f s on off on' c next = c
Comes-bind (repeat s') f s on off on' c next = c
Comes-bind no_turn f s on off on' c next = tt

pub Comes-mono :
    {A : Type 0} (o : Outcome A) (on off on' off' : ThreadState → Type 0)
    → Comes o on off
    → ((s : ThreadState) → on s → on' s)
    → ((s : ThreadState) → off s → off' s)
    → Comes o on' off'
Comes-mono (going a s) on off on' off' c f g = f s c
Comes-mono (finished s) on off on' off' c f g = g s c
Comes-mono (repeat s) on off on' off' c f g = g s c
Comes-mono no_turn on off on' off' c f g = tt

pub nil_or_cons : {A : Type 0} (xs : List A) → (xs ≡ []) ⊎ ((x : A) × (ys : List A) × (xs ≡ x ∷ ys))
nil_or_cons [] = inl refl
nil_or_cons (x ∷ xs) = inr (x, xs, refl)

abbrev pub HasSent : List Sent → ThreadState → Type 0
HasSent ps s = s.sent ≡ ps

pub charge_cost-HasSent :
    (cost : Option ℤ) (s : ThreadState) (ps : List Sent)
    → s.sent ≡ ps
    → Comes (charge_cost cost s) (HasSent ps) (HasSent ps)
unfolding charge_cost guard_stub
charge_cost-HasSent cost s ps e = elim (nil_or_cons s.turns) [
  | inl none_left ↦ rw (none_left, with_turn) tt
  | inr (t, ts, more) ↦ rw (more, with_turn) (ground (arith, e))
]

-- a name without a cost
pub charge_cost-none :
    (s : ThreadState) (t : Turn) (ts : List Turn)
    → s.turns ≡ t ∷ ts
    → t.stop ≡ false
    → charge_cost none s ≡ going tt (record s { did = s.did ++ looked false ∷ []; turns = ts })
unfolding charge_cost guard_stub
charge_cost-none s t ts more on = rw (more, with_turn) (rw on refl)

pub block-HasSent :
    (s : ThreadState) (ps : List Sent)
    → s.sent ≡ ps
    → Comes ((announce_block >> resume) s) (HasSent ps) (HasSent ps)
unfolding announce_block resume
block-HasSent s ps e = elim (nil_or_cons s.turns) [
  | inl none_left ↦ rw (none_left, with_turn) tt
  | inr (t, ts, more) ↦ rw (more, with_turn) (ground (arith, e))
]

pub start-HasSent :
    (s : ThreadState) (ps : List Sent) → s.sent ≡ ps → Comes (start s) (HasSent ps) (HasSent ps)
unfolding start guard_stub
start-HasSent s ps e = elim (nil_or_cons s.turns) [
  | inl none_left ↦ rw (none_left, with_turn) tt
  | inr (t, ts, more) ↦ rw (more, with_turn) (ground (arith, e))
]

module _ (times : Cost → Option ℤ) (route : List ℕ → ℤ) where
  charge-HasSent :
      (c : Cost) (s : ThreadState) (ps : List Sent)
      → s.sent ≡ ps
      → Comes (charge times route c s) (HasSent ps) (HasSent ps)
  unfolding charge
  charge-HasSent c = charge_cost-HasSent (times c)

  -- the state has sent a first part of `all` behind what had been sent
  abbrev pub Partly : List Sent → List Sent → ThreadState → Type 0
  Partly before all s =
      (qs : List Sent) × (rest : List Sent) × (s.sent ≡ before ++ qs) × (qs ++ rest ≡ all)

  charge-Partly :
      (c : Cost) (s : ThreadState) (before qs rest all : List Sent)
      → s.sent ≡ before ++ qs
      → qs ++ rest ≡ all
      → Comes (charge times route c s) (HasSent (before ++ qs)) (Partly before all)
  charge-Partly c s before qs rest all e part =
      Comes-mono (charge times route c s) (HasSent (before ++ qs)) (HasSent (before ++ qs)) _ _
        (charge-HasSent c s (before ++ qs) e) (λ s' e'. e') (λ s' e'. (qs, rest, e', part))

  abbrev to_send : List Socket → List Sent
  to_send socks = routed_prefix route (packets socks)

  -- what one socket adds, when the pass goes on to the sockets behind it
  abbrev Adds : List Sent → Socket → List Socket → ThreadState → Type 0
  Adds before sock socks s =
      (qs : List Sent) × (s.sent ≡ before ++ qs) × (qs ++ to_send socks ≡ to_send (sock ∷ socks))

  routed :
      (p : List ℕ) (idx : ℕ) (ps : List (List ℕ))
      → route p ≡ pos idx
      → routed_prefix route (p ∷ ps)
        ≡ (record { pkt = p; dst_sock_idx = idx }) ∷ routed_prefix route ps
  routed p idx ps e = rw (e, routed_prefix) refl

  -- the part of a packet behind the lookup of its route
  by_route-Adds :
      (p : List ℕ) (before : List Sent) (socks : List Socket) (r : ℤ) (s : ThreadState)
      → route p ≡ r
      → s.sent ≡ before ++ []
      → Comes
          ((elim r as (λ x. Act (Unit {0})) [
            | pos idx ↦ send times route p idx >> charge times route send_packet
            | negsuc _ ↦ (λ s'. repeat s')
          ])
            s)
          (Adds before (packet p) socks)
          (Partly before (to_send (packet p ∷ socks)))
  unfolding send
  by_route-Adds p before socks (negsuc n) s e at = ([], to_send (packet p ∷ socks), at, refl)
  by_route-Adds p before socks (pos idx) s e at =
      let x : Sent = record { pkt = p; dst_sock_idx = idx } in
      let s' : ThreadState = record s { sent = s.sent ++ x ∷ [] } in
      let here : s'.sent ≡ before ++ x ∷ [] = ap (λ y. y ++ x ∷ []) (at ∙ append-nil before) in
      let all = sym (routed p idx (packets socks) e) in
      Comes-mono (charge times route send_packet s') _ _ _ _
        (charge-Partly send_packet s' before (x ∷ []) (to_send socks) (to_send (packet p ∷ socks))
          here all)
        (λ s'' e'. (x ∷ [], e', all)) (λ s'' c. c)

  forward_one-Adds :
      (sock : Socket) (socks : List Socket) (s : ThreadState)
      → Comes
          (forward_one times route sock s)
          (Adds s.sent sock socks)
          (Partly s.sent (to_send (sock ∷ socks)))
  unfolding forward_one
  forward_one-Adds not_ready socks s = ([], sym (append-nil s.sent), refl)
  forward_one-Adds nothing_read socks s =
      let all = to_send (nothing_read ∷ socks) in
      Comes-bind (charge times route flush_buffer s) _ s (HasSent (s.sent ++ []))
        (Partly s.sent all) _
        (charge-Partly flush_buffer s s.sent [] all all (sym (append-nil s.sent)) refl)
        (λ a s' e.
          Comes-mono (charge times route recvfrom s') (HasSent (s.sent ++ [])) (Partly s.sent all) _
            _ (charge-Partly recvfrom s' s.sent [] all all e refl) (λ s'' e'. ([], e', refl))
            (λ s'' c. c))
  forward_one-Adds (packet p) socks s =
      let all = to_send (packet p ∷ socks) in
      let step : (c : Cost) (s' : ThreadState)
          → HasSent (s.sent ++ []) s'
          → Comes (charge times route c s') (HasSent (s.sent ++ [])) (Partly s.sent all) =
        λ c s' e. charge-Partly c s' s.sent [] all all e refl in
      Comes-bind (charge times route flush_buffer s) _ s _ _ _
        (step flush_buffer s (sym (append-nil s.sent)))
        (λ _ s₁ e₁.
          Comes-bind (charge times route recvfrom s₁) _ s₁ _ _ _ (step recvfrom s₁ e₁) (λ _ s₂ e₂.
            Comes-bind (charge times route get_dst_sock_idx s₂) _ s₂ _ _ _
              (step get_dst_sock_idx s₂ e₂)
              (λ _ s₃ e₃. by_route-Adds p s.sent socks (route p) s₃ refl e₃)))

  -- A pass of the thread that comes to its end has sent, behind what had been sent before, each
  -- packet read to the interface of its route. A pass that is left earlier, because the thread
  -- finishes or meets a packet without a route, has sent a first part of these.
  pub forward_all-Sends :
      (socks : List Socket) (runnable : Bool) (s : ThreadState)
      → Comes
          (forward_all times route socks runnable s)
          (λ s'. s'.sent ≡ s.sent ++ routed_prefix route (packets socks))
          (Partly s.sent (routed_prefix route (packets socks)))
  unfolding forward_all
  forward_all-Sends [] runnable s = sym (append-nil s.sent)
  forward_all-Sends (sock ∷ socks) runnable s =
      Comes-bind (forward_one times route sock s) _ s (Adds s.sent sock socks)
        (Partly s.sent (to_send (sock ∷ socks))) _ (forward_one-Adds sock socks s)
        (λ a s' added.
          let (qs, e, part) = added in
          Comes-mono (forward_all times route socks _ s') _ _ _ _ (forward_all-Sends socks _ s')
            (λ s'' e'. (e' ∙ (rw (e, append_assoc) (ap (λ x. s.sent ++ x) part))))
            (λ s'' c.
              let (qs', rest, e', part') = c in
              (
                qs ++ qs',
                rest,
                e' ∙ (rw e (append_assoc s.sent qs qs')),
                append_assoc qs qs' rest ∙ (ap (λ x. qs ++ x) part' ∙ part),
              )))
