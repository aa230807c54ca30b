-- ===== src/PktInfo/Counts.antt =====
-- The counters of `ProcessPacket` after a sequence of packets.
use vt_mechanisms.Prelude.{
  ℕ, ◌+◌, ◌≡◌, ◌==◌, ◌||◌, if◌then◌else◌, Bool, List, [], ◌∷◌, length, arith,
}
use vt_mechanisms.PktInfo.{Counters, process_packet}

-- the counters after packets with these protocols
abbrev pub process_all : List ℕ → Counters → Counters
process_all [] counters = counters
process_all (p ∷ ps) counters = process_all ps (process_packet p counters).0

-- how many protocols pass a test
abbrev pub count : (ℕ → Bool) → List ℕ → ℕ
count test [] = 0
count test (p ∷ ps) = (if test p then 1 else 0) + count test ps

abbrev pub counted_apart : ℕ → Bool
counted_apart p = (p == 1) || ((p == 2) || ((p == 6) || (p == 17)))

-- Each counter has grown by the number of packets with its protocol, `others` by those with none
-- of the four, and the total by all.
pub process_packet-count :
    (ps : List ℕ) (c : Counters)
    → ((process_all ps c).icmp ≡ c.icmp + count (λ p. p == 1) ps)
      × ((process_all ps c).igmp ≡ c.igmp + count (λ p. p == 2) ps)
      × ((process_all ps c).tcp ≡ c.tcp + count (λ p. p == 6) ps)
      × ((process_all ps c).udp ≡ c.udp + count (λ p. p == 17) ps)
      × ((process_all ps c).others + count counted_apart ps ≡ c.others + length ps)
      × ((process_all ps c).total ≡ c.total + length ps)
unfolding process_packet
process_packet-count [] c =
    (omega arith, omega arith, omega arith, omega arith, omega arith, omega arith)
process_packet-count (p ∷ ps) c =
    let rest = process_packet-count ps (process_packet p c).0 in ground arith
