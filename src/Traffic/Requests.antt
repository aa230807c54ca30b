-- ===== src/Traffic/Requests.antt =====
-- What the client of src/routing/test/client_n_vt.c sends.
use vt_mechanisms.Prelude.{
  ℕ, ◌+◌, ◌≡◌, refl, sym, ◌∙◌, ap, Bool, true, false, List, [], ◌∷◌, ◌++◌, if◌then◌else◌,
  append-nil, append_assoc, pos, ltb_ℤ, codes,
}
use vt_mechanisms.Router.{Sent}
use vt_mechanisms.RouterThread.{
  look, ThreadState, Outcome, going, finished, repeat, no_turn, Act, ◌>>=◌, ◌>>◌, announce_block,
  resume, start,
}
use vt_mechanisms.RouterThread.Sends.{Comes, charge_cost-HasSent, block-HasSent, start-HasSent}
use vt_mechanisms.Traffic.{
  Exchange, Costs, charge_name, send_to, request, client_round, client_loop, run_client,
}

-- the number of the last answered request after a round
abbrev pub next_no : Exchange → ℕ → ℕ
next_no x n = if ltb_ℤ (pos 0) x.received then n + 1 else n

abbrev pub sent_request : ℕ → Sent
sent_request n = record { pkt = request n; dst_sock_idx = 0 }

-- One request for each round: its number is one more than the number of answers so far.
abbrev pub requests : List Exchange → ℕ → List Sent
requests [] n = []
requests (x ∷ xs) n = sent_request (n + 1) ∷ requests xs (next_no x n)

abbrev pub answered : List Exchange → ℕ → ℕ
answered [] n = n
answered (x ∷ xs) n = answered xs (next_no x n)

-- what the result and the state satisfy where the run goes on, and the state where it is over
abbrev pub CameTo :
    {A : Type 0} → Outcome A → (A → ThreadState → Type 0) → (ThreadState → Type 0) → Type 0
CameTo (going a s) on off = on a s
CameTo (finished s) on off = off s
CameTo (repeat s) on off = off s
CameTo no_turn on off = Unit

-- the state has sent a first part of `all` behind what had been sent
abbrev pub Part : List Sent → List Sent → ThreadState → Type 0
Part before all s =
    (qs : List Sent) × (rest : List Sent) × (s.sent ≡ before ++ qs) × (qs ++ rest ≡ all)

CameTo-bind :
    {A B : Type 0} (o : Outcome A) (f : A → Act B) (s : ThreadState) (on : A → ThreadState → Type 0)
    (off : ThreadState → Type 0) (on' : B → ThreadState → Type 0)
    → CameTo o on off
    → ((a : A) (s' : ThreadState) → on a s' → CameTo (f a s') on' off)
    → CameTo (((λ (_ : ThreadState). o) >>= f) s) on' off
CameTo-bind (going a s') f s on off on' c next = next a s' c
CameTo-bind (finished s') f s on off on' c next = c
CameTo-bind (repeat s') f s on off on' c next = c
CameTo-bind no_turn f s on off on' c next = tt

CameTo-mono :
    {A : Type 0} (o : Outcome A) (on on' : A → ThreadState → Type 0)
    (off off' : ThreadState → Type 0)
    → CameTo o on off
    → ((a : A) (s : ThreadState) → on a s → on' a s)
    → ((s : ThreadState) → off s → off' s)
    → CameTo o on' off'
CameTo-mono (going a s) on on' off off' c f g = f a s c
CameTo-mono (finished s) on on' off off' c f g = g s c
CameTo-mono (repeat s) on on' off off' c f g = g s c
CameTo-mono no_turn on on' off off' c f g = tt

-- an act that sends nothing
abbrev Quiet : Act (Unit {0}) → Type 0
Quiet m =
    (s : ThreadState) (ps : List Sent)
    → s.sent ≡ ps
    → CameTo (m s) (λ _ s'. s'.sent ≡ ps) (λ s'. s'.sent ≡ ps)

of_Comes :
    (o : Outcome (Unit {0})) (P : ThreadState → Type 0) → Comes o P P → CameTo o (λ _ s. P s) P
of_Comes (going a s) P c = c
of_Comes (finished s) P c = c
of_Comes (repeat s) P c = c
of_Comes no_turn P c = c

charge-Quiet : (times : Costs) (name : List ℕ) → Quiet (charge_name times name)
unfolding charge_name
charge-Quiet times name s ps e =
    of_Comes _ (λ s'. s'.sent ≡ ps) (charge_cost-HasSent (times name) s ps e)

block-Quiet : Quiet (announce_block >> resume)
block-Quiet s ps e = of_Comes _ (λ s'. s'.sent ≡ ps) (block-HasSent s ps e)

start-Quiet : Quiet start
start-Quiet s ps e = of_Comes _ (λ s'. s'.sent ≡ ps) (start-HasSent s ps e)

look-Quiet : (stop : Bool) → Quiet (look stop)
unfolding look
look-Quiet true s ps e = e
look-Quiet false s ps e = e

-- a quiet act, in a run that is to send `all`
module _ (m : Act (Unit {0})) (quiet : Quiet m) where
  quiet-Part :
      (before qs rest all : List Sent) (s : ThreadState)
      → s.sent ≡ before ++ qs
      → qs ++ rest ≡ all
      → CameTo (m s) (λ _ s'. s'.sent ≡ before ++ qs) (Part before all)
  quiet-Part before qs rest all s e part =
      CameTo-mono (m s) _ _ _ _ (quiet s (before ++ qs) e) (λ a s' e'. e')
        λ s' e'. (qs, rest, e', part)

-- One round of the client: it sends its request, and counts it if it was answered.
module _ (times : Costs) where
  round-Sends :
      (x : Exchange) (n : ℕ) (behind : List Sent) (s : ThreadState)
      → CameTo
          (client_round times x n s)
          (λ n' s'. (n' ≡ next_no x n) × (s'.sent ≡ s.sent ++ sent_request (n + 1) ∷ []))
          (Part s.sent (sent_request (n + 1) ∷ behind))
  unfolding client_round send_to
  round-Sends x n behind s =
      CameTo-bind (look x.stop s) _ s _ (Part s.sent all) _
        (before_part (look x.stop) (look-Quiet x.stop) s (sym (append-nil s.sent)))
        λ _ s₀ e₀.
          CameTo-bind (charge_name times (codes "flush_buffer") s₀) _ s₀ _ (Part s.sent all) _
            (before_part (charge_name times (codes "flush_buffer")) (charge-Quiet times _) s₀ e₀)
            λ _ s₁ e₁.
              let s₂ : ThreadState = record s₁ { sent = s₁.sent ++ sent_request (n + 1) ∷ [] } in
              let e₂ : s₂.sent ≡ s.sent ++ sent_request (n + 1) ∷ [] =
                ap (λ l. l ++ sent_request (n + 1) ∷ []) (e₁ ∙ append-nil s.sent) in
              CameTo-bind (charge_name times (codes "send_to") s₂) _ s₂ _ _ _
                (sent_part (charge_name times (codes "send_to")) (charge-Quiet times _) s₂ e₂)
                λ _ s₃ e₃.
                  CameTo-bind (charge_name times (codes "flush_buffer") s₃) _ s₃ _ _ _
                    (sent_part (charge_name times (codes "flush_buffer")) (charge-Quiet times _) s₃
                      e₃)
                    λ _ s₄ e₄.
                      CameTo-bind ((announce_block >> resume) s₄) _ s₄ _ _ _
                        (sent_part (announce_block >> resume) block-Quiet s₄ e₄)
                        λ _ s₅ e₅. counts (ltb_ℤ (pos 0) x.received) s₅ e₅
    where
      all : List Sent
      all = sent_request (n + 1) ∷ behind

      before_part :
          (m : Act (Unit {0}))
          → Quiet m
          → (s' : ThreadState) → s'.sent ≡ s.sent ++ []
          → CameTo (m s') (λ _ s''. s''.sent ≡ s.sent ++ []) (Part s.sent all)
      before_part m quiet s' e = quiet-Part m quiet s.sent [] all all s' e refl

      sent_part :
          (m : Act (Unit {0}))
          → Quiet m
          → (s' : ThreadState) → s'.sent ≡ s.sent ++ sent_request (n + 1) ∷ []
          → CameTo
              (m s')
              (λ _ s''. s''.sent ≡ s.sent ++ sent_request (n + 1) ∷ [])
              (Part s.sent all)
      sent_part m quiet s' e =
          quiet-Part m quiet s.sent (sent_request (n + 1) ∷ []) behind all s' e refl

      counts :
          (b : Bool) (s' : ThreadState)
          → s'.sent ≡ s.sent ++ sent_request (n + 1) ∷ []
          → CameTo
              ((if b
                  then (charge_name times (codes "computation") >> (λ s''. going (n + 1) s''))
                  else (λ s''. going n s''))
                s')
              (λ n' s''.
                (n' ≡ (if b then n + 1 else n)) × (s''.sent ≡ s.sent ++ sent_request (n + 1) ∷ []))
              (Part s.sent all)
      counts true s' e =
          CameTo-bind (charge_name times (codes "computation") s') _ s' _ _ _
            (sent_part (charge_name times (codes "computation")) (charge-Quiet times _) s' e)
            λ _ s'' e'. (refl, e')
      counts false s' e = (refl, e)

  loop-Sends :
      (xs : List Exchange) (n : ℕ) (s : ThreadState)
      → CameTo
          (client_loop times xs n s)
          (λ n' s'. (n' ≡ answered xs n) × (s'.sent ≡ s.sent ++ requests xs n))
          (Part s.sent (requests xs n))
  unfolding client_loop
  loop-Sends [] n s = (refl, sym (append-nil s.sent))
  loop-Sends (x ∷ xs) n s =
      let r = sent_request (n + 1) in
      CameTo-bind (client_round times x n s) _ s _ (Part s.sent (requests (x ∷ xs) n)) _
        (round-Sends x n (requests xs (next_no x n)) s)
        λ n' s' came.
          let (count, e) = came in
          rw count (
            CameTo-mono (client_loop times xs (next_no x n) s') _ _ _ _
              (loop-Sends xs (next_no x n) s')
              (λ n'' s'' came'. (
                came'.0,
                came'.1 ∙ rw e (append_assoc s.sent (r ∷ []) (requests xs (next_no x n))),
              ))
              λ s'' part.
                let (qs, rest, e', all) = part in
                (r ∷ qs, rest, e' ∙ rw e (append_assoc s.sent (r ∷ []) qs), ap (λ l. r ∷ l) all))

  -- A client's thread that comes through its rounds has sent one request in each, numbered by one more
  -- than the answers so far, and returns the number of answers. One that is finished earlier has sent
  -- a first part of these.
  pub run_client-Sends :
      (xs : List Exchange) (s : ThreadState)
      → CameTo
          (run_client times xs s)
          (λ n s'. (n ≡ answered xs 0) × (s'.sent ≡ s.sent ++ requests xs 0))
          (Part s.sent (requests xs 0))
  unfolding run_client
  run_client-Sends xs s =
      let all = requests xs 0 in
      CameTo-bind (start s) _ s _ (Part s.sent all) _
        (quiet-Part start start-Quiet s.sent [] all all s (sym (append-nil s.sent)) refl)
        λ _ s₁ e₁.
          CameTo-bind ((announce_block >> resume) s₁) _ s₁ _ (Part s.sent all) _
            (quiet-Part (announce_block >> resume) block-Quiet s.sent [] all all s₁ e₁ refl)
            λ _ s₂ e₂.
              let same = e₂ ∙ append-nil s.sent in
              CameTo-mono (client_loop times xs 0 s₂) _ _ _ _ (loop-Sends xs 0 s₂)
                (λ n s₃ came. (came.0, came.1 ∙ ap (λ l. l ++ all) same))
                λ s₃ part.
                  (let (qs, rest, e', first) = part in
                    (qs, rest, e' ∙ ap (λ l. l ++ qs) same, first))
