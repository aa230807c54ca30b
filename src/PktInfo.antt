-- ===== src/PktInfo.antt =====
-- src/routing/pkt_info.c: the packet counters of `ProcessPacket`, and the hex dump of `PrintData` as
-- the text that it prints.
pub mod Counts
pub mod Print
pub mod Packets
pub mod Dump
pub mod Rows
pub mod Local
use vt_mechanisms.Prelude.{
  ℕ, zero, suc, ◌+◌, ◌-◌, ◌*◌, ◌/◌, ◌%◌, ◌&&◌, not, List, [], ◌∷◌, ◌++◌, ◌==◌, ltb, leb,
  if◌then◌else◌, get_or, codes,
}

-- The global counters.
pub record Counters : Type 0 where
  pub tcp : ℕ
  pub udp : ℕ
  pub icmp : ℕ
  pub others : ℕ
  pub igmp : ℕ
  pub total : ℕ

-- Which of the functions that print a packet is called.
pub data Printer : Type 0 where
  print_icmp print_tcp print_udp print_nothing : Printer

-- `ProcessPacket` by the protocol field of the IP header
unfoldable pub process_packet : ℕ → Counters → Counters × Printer
process_packet protocol counters =
    let c : Counters = record counters { total = counters.total + 1 } in
    if protocol == 1
    then (record c { icmp = c.icmp + 1 }, print_icmp)
    else if protocol == 2
    then (record c { igmp = c.igmp + 1 }, print_nothing)
    else if protocol == 6
    then (record c { tcp = c.tcp + 1 }, print_tcp)
    else if protocol == 17
    then (record c { udp = c.udp + 1 }, print_udp)
    else (record c { others = c.others + 1 }, print_nothing)

-- The protocol field: byte 9 of the buffer, read as an IP header.
unfoldable pub protocol_of : List ℕ → ℕ
protocol_of buffer = get_or buffer 9 0

unfoldable pub hex_digit : ℕ → ℕ
hex_digit d = if ltb d 10 then b'0' + d else b'A' + (d - 10)

-- `" %02X"` of a signed `char` made an `unsigned int`: a byte from 128 on has six more digits.
unfoldable pub hex_byte : ℕ → List ℕ
unfolding hex_digit
hex_byte c =
    b' ' ∷ (if ltb c 128 then [] else codes "FFFFFF")
    ++ hex_digit (c / 16) ∷ hex_digit (c % 16) ∷ []

-- The character column: a signed `char` is at most 128 whatever it is.
unfoldable pub shown : ℕ → ℕ
shown c = if leb 32 c && ltb c 128 then c else b'.'

-- the characters of the bytes from `from` on, `count` of them
unfoldable pub char_column : List ℕ → ℕ → ℕ → List ℕ
unfolding shown
char_column bytes from zero = []
char_column bytes from (suc count) =
    shown (get_or bytes from 0) ∷ char_column bytes (from + 1) count

unfoldable pub spaces : ℕ → List ℕ
spaces zero = []
spaces (suc n) = b' ' ∷ spaces n

-- One round of the loop of `PrintData`.
unfoldable pub print_data_round : List ℕ → (size i : ℕ) → List ℕ
unfolding hex_byte char_column spaces
print_data_round bytes size i =
    (if not (i == 0) && (i % 16 == 0)
      then spaces 9 ++ char_column bytes (i - 16) 16 ++ 10 ∷ []
      else [])
    ++ (if i % 16 == 0 then spaces 3 else [])
    ++ hex_byte (get_or bytes i 0)
    ++ (if i + 1 == size
        then spaces (3 * (15 - i % 16))
          ++ spaces 9
          ++ char_column bytes (i - i % 16) (i % 16 + 1)
          ++ 10 ∷ []
        else [])

unfoldable pub print_data_loop : List ℕ → (size i left : ℕ) → List ℕ
unfolding print_data_round
print_data_loop bytes size i zero = []
print_data_loop bytes size i (suc left) =
    print_data_round bytes size i ++ print_data_loop bytes size (i + 1) left

-- `PrintData(data, Size)` for a `Size` that is not negative
unfoldable pub print_data : List ℕ → ℕ → List ℕ
unfolding print_data_loop
print_data bytes size = print_data_loop bytes size 0 size
