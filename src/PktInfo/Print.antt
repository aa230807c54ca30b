-- ===== src/PktInfo/Print.antt =====
-- The printers of headers of src/routing/pkt_info.c, as the texts that they write on `stdout`. A buffer is the
-- list of its bytes, the caller's 2000 or more; a byte behind them reads as 0. The fields are those
-- of the headers of Linux on a little-endian machine.
use vt_mechanisms.Prelude.{ℕ, ◌+◌, ◌*◌, ◌/◌, ◌%◌, List, [], ◌∷◌, ◌++◌, get_or, codes}
use vt_mechanisms.Decimal.{print_nat}
use vt_mechanisms.Routes.{inet_ntoa}
use vt_mechanisms.PktInfo.{hex_digit}

abbrev pub ethhdr_size : ℕ
ethhdr_size = 14

abbrev pub newline : List ℕ
newline = 10 ∷ []

-- the byte at an offset of a structure that lies at an address of the buffer
abbrev pub at : List ℕ → ℕ → ℕ
at buffer i = get_or buffer i 0

-- `ntohs` of the two bytes there, and the same as the machine reads them
unfoldable pub net_short : List ℕ → ℕ → ℕ
net_short buffer i = at buffer i * 256 + at buffer (i + 1)

unfoldable pub host_short : List ℕ → ℕ → ℕ
host_short buffer i = at buffer i + at buffer (i + 1) * 256

-- `ntohl`
unfoldable pub net_long : List ℕ → ℕ → ℕ
unfolding net_short
net_long buffer i = net_short buffer i * 65536 + net_short buffer (i + 2)

-- "%d" or "%u" of a number that is not negative
unfoldable pub decimal : ℕ → List ℕ
unfolding print_nat
decimal n = print_nat n n

-- "%.2X"
unfoldable pub hex2 : ℕ → List ℕ
unfolding hex_digit
hex2 c = hex_digit (c / 16) ∷ hex_digit (c % 16) ∷ []

-- a line of a label and a number
unfoldable pub field : List ℕ → ℕ → List ℕ
unfolding decimal
field label n = label ++ decimal n ++ newline

-- six bytes with dashes between them, as a hardware address
unfoldable pub mac_text : List ℕ → ℕ → List ℕ
unfolding hex2
mac_text buffer i =
    hex2 (at buffer i)
    ++ b'-' ∷ hex2 (at buffer (i + 1))
    ++ b'-' ∷ hex2 (at buffer (i + 2))
    ++ b'-' ∷ hex2 (at buffer (i + 3))
    ++ b'-' ∷ hex2 (at buffer (i + 4))
    ++ b'-' ∷ hex2 (at buffer (i + 5))

unfoldable pub print_ethernet_header : List ℕ → List ℕ
unfolding mac_text host_short field
print_ethernet_header buffer =
    newline
    ++ codes "Ethernet Header\n"
    ++ codes "   |-Destination Address : "
    ++ mac_text buffer 0
    ++ codes " \n"
    ++ codes "   |-Source Address      : "
    ++ mac_text buffer 6
    ++ codes " \n"
    ++ codes "   |-Protocol            : "
    ++ decimal (host_short buffer 12)
    ++ codes " \n"

-- the four bytes of an address
unfoldable pub address_text : List ℕ → ℕ → List ℕ
unfolding inet_ntoa
address_text buffer i =
    inet_ntoa (at buffer i) (at buffer (i + 1)) (at buffer (i + 2)) (at buffer (i + 3))

-- `iph->ihl` of the IP header behind the Ethernet header
unfoldable pub ihl_of : List ℕ → ℕ
ihl_of buffer = at buffer ethhdr_size % 16

unfoldable pub print_ip_header : List ℕ → List ℕ
unfolding ihl_of field net_short address_text decimal
print_ip_header buffer =
    let ip = ethhdr_size in
    newline
    ++ codes "IP Header\n"
    ++ field (codes "   |-IP Version        : ") (at buffer ip / 16)
    ++ codes "   |-IP Header Length  : "
    ++ decimal (ihl_of buffer)
    ++ codes " DWORDS or "
    ++ decimal (ihl_of buffer * 4)
    ++ codes " Bytes\n"
    ++ field (codes "   |-Type Of Service   : ") (at buffer (ip + 1))
    ++ codes "   |-IP Total Length   : "
    ++ decimal (net_short buffer (ip + 2))
    ++ codes "  Bytes(Size of Packet)\n"
    ++ field (codes "   |-Identification    : ") (net_short buffer (ip + 4))
    ++ field (codes "   |-TTL      : ") (at buffer (ip + 8))
    ++ field (codes "   |-Protocol : ") (at buffer (ip + 9))
    ++ field (codes "   |-Checksum : ") (net_short buffer (ip + 10))
    ++ codes "   |-Source IP        : "
    ++ address_text buffer (ip + 12)
    ++ newline
    ++ codes "   |-Destination IP   : "
    ++ address_text buffer (ip + 16)
    ++ newline
