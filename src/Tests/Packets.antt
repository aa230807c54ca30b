-- ===== src/Tests/Packets.antt =====
-- The counters after four packets, and one line of the dump.
use vt_mechanisms.Prelude.{ℕ, ◌≡◌, refl, List, [], ◌∷◌, codes}
use vt_mechanisms.Prelude.{take, replicate, ◌++◌, arith}
use vt_mechanisms.PktInfo.{print_data}
use vt_mechanisms.PktInfo.Dump.{rows}
use vt_mechanisms.PktInfo.Local.{print_data-rows}
use vt_mechanisms.PktInfo.Print.{host_short}
use vt_mechanisms.PktInfo.Packets.{process_and_print}
use vt_mechanisms.PktInfo.{Counters, hex_byte}

abbrev none_yet : Counters
none_yet = record { tcp = 0; udp = 0; icmp = 0; others = 0; igmp = 0; total = 0 }

abbrev protocols : List ℕ
protocols = 6 ∷ 17 ∷ 6 ∷ 89 ∷ []

-- a byte from 0x80 on is printed with its sign
hex_byte_runs : hex_byte 0xab ≡ codes " FFFFFFAB"
unfolding hex_byte
hex_byte_runs = refl

-- a row and a byte of a buffer of twenty bytes
abbrev bytes : List ℕ
bytes = codes "0123456789abcdefghij"

print_data-rows_example : print_data bytes 17 ≡ rows 17 (take 17 bytes)
print_data-rows_example = print_data-rows bytes 17 (omega arith)

-- a TCP packet behind an Ethernet header
abbrev tcp_packet : List ℕ
tcp_packet = replicate 14 0 ++ 0x45 ∷ replicate 19 0 ++ replicate 12 0 ++ 0x50 ∷ replicate 7 0

-- `ProcessPacket` takes the first byte of the Ethernet header for that of the IP header, and does
-- not see that it is one
process_and_print_runs :
    (process_and_print tcp_packet 54 none_yet).0 ≡ record none_yet { others = 1; total = 1 }
unfolding process_and_print
process_and_print_runs = refl

-- the urgent pointer of 1 in the order of the network
host_short_runs : host_short (0 ∷ 1 ∷ []) 0 ≡ 256
unfolding host_short
host_short_runs = refl
