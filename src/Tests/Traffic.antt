-- ===== src/Tests/Traffic.antt =====
-- A client that is answered in the first of two rounds, and a server in two rounds.
use vt_mechanisms.Prelude.{
  Bool, true, ◌&&◌, ◌==◌, ==→eq, Bool-cases, inl, inr, ◌≢◌, none, if◌then◌else◌,
}
use vt_mechanisms.Prelude.{
  ℕ, zero, suc, ◌≡◌, refl, false, List, [], ◌∷◌, ◌++◌, some, arith, pos, negsuc, codes, replicate,
}
use vt_mechanisms.Rounds.{starting}
use vt_mechanisms.RouterThread.{Turn, ThreadState}
use vt_mechanisms.RouterThread.Play.{Replied, Follows}
use vt_mechanisms.RouterThread.Enough.{Leaves}
use vt_mechanisms.Traffic.{Exchange, Costs, request, run_client, run_server}
use vt_mechanisms.Traffic.Follows.{run_client-Follows, run_server-Follows}
use vt_mechanisms.Traffic.Requests.{CameTo, Part, requests, run_client-Sends}
use vt_mechanisms.Traffic.Uncharged.{run_client-same}

-- 50 microseconds for every function
abbrev fifty : Costs
fifty name = some (pos 50)

abbrev exchanges : List Exchange
exchanges =
    (record { stop = false; received = pos 19999 })
    ∷ (record { stop = false; received = negsuc 0 })
    ∷ []

abbrev answer : Turn
answer = record { reply = codes "120"; stop = false; garbage = pos 1 }

replied : (n : ℕ) → Replied (replicate n answer)
replied zero = tt
replied (suc n) = ((b'1', b'2' ∷ b'0' ∷ [], refl), replied n)

abbrev thread : ThreadState
thread = record { curr = pos 0; did = []; sent = []; turns = replicate 12 answer }

run_client-Follows_example :
    Leaves 0 (run_client fifty exchanges thread)
    × Follows starting thread (run_client fifty exchanges thread)
run_client-Follows_example = run_client-Follows fifty exchanges thread (replied 12) (omega arith)

run_server-Follows_example :
    Leaves 0 (run_server fifty exchanges thread)
    × Follows starting thread (run_server fifty exchanges thread)
run_server-Follows_example = run_server-Follows fifty exchanges thread (replied 12) (omega arith)

run_client-Sends_example :
    CameTo
      (run_client fifty exchanges thread)
      (λ n s'. (n ≡ 1) × (s'.sent ≡ [] ++ requests exchanges 0))
      (Part [] (requests exchanges 0))
run_client-Sends_example = run_client-Sends fifty exchanges thread

same_text : List ℕ → List ℕ → Bool
same_text [] [] = true
same_text [] (b ∷ bs) = false
same_text (a ∷ as') [] = false
same_text (a ∷ as') (b ∷ bs) = (a == b) && same_text as' bs

same_text-eq : (as' bs : List ℕ) → same_text as' bs ≡ true → as' ≡ bs
unfolding same_text
same_text-eq [] [] e = refl
same_text-eq [] (b ∷ bs) e = cc
same_text-eq (a ∷ as') [] e = cc
same_text-eq (a ∷ as') (b ∷ bs) e = elim (Bool-cases (a == b)) [
  | inl same ↦ rw (==→eq a b same, same_text-eq as' bs (rw same at e)) refl
  | inr other ↦ let no = rw other at e in cc
]

-- without a cost for "sendto"
without : Costs
unfolding same_text
without name = if same_text name (codes "sendto") then none else fifty name

without-fifty : (name : List ℕ) → name ≢ codes "sendto" → without name ≡ fifty name
unfolding without
without-fifty name ne = elim (Bool-cases (same_text name (codes "sendto"))) [
  | inl same ↦ absurd (ne (same_text-eq name (codes "sendto") same))
  | inr other ↦ rw other refl
]

run_client-same_example : run_client without exchanges thread ≡ run_client fifty exchanges thread
run_client-same_example = run_client-same without fifty without-fifty exchanges thread

-- "REQUEST: 12" with its NUL
request_runs : request 12 ≡ codes "REQUEST: 12" ++ 0 ∷ []
unfolding request
request_runs = refl
