-- ===== src/PktInfo/Packets.antt =====
-- The printers of TCP, UDP and ICMP packets of src/routing/pkt_info.c, and `ProcessPacket` with them.
use vt_mechanisms.Prelude.{
  ℕ, ◌+◌, ◌-◌, ◌*◌, ◌/◌, ◌%◌, ◌^◌, List, [], ◌∷◌, ◌++◌, ◌==◌, if◌then◌else◌, drop, codes,
}
use vt_mechanisms.PktInfo.{
  Counters, Printer, print_icmp, print_tcp, print_udp, print_nothing, process_packet, protocol_of,
  print_data,
}
use vt_mechanisms.PktInfo.Print.{
  ethhdr_size, newline, at, net_short, host_short, net_long, decimal, field, ihl_of,
  print_ip_header,
}

-- the size of a pointer, which `sizeof udph` and `sizeof icmph` are
abbrev pointer_size : ℕ
pointer_size = 8

-- a bit of a byte
unfoldable pub bit : ℕ → ℕ → ℕ
bit c k = c / 2 ^ k % 2

abbrev stars : List ℕ
stars = codes "***********************"

abbrev last_line : List ℕ
last_line = codes "\n###########################################################"

-- `tcph->doff`, for a TCP header at an offset
unfoldable pub doff_of : List ℕ → ℕ → ℕ
doff_of buffer tcp = at buffer (tcp + 12) / 16

unfoldable pub tcp_fields : List ℕ → ℕ → List ℕ
unfolding field net_short net_long host_short doff_of bit decimal
tcp_fields buffer tcp =
    let flags = at buffer (tcp + 13) in
    codes "TCP Header\n"
    ++ field (codes "   |-Source Port      : ") (net_short buffer tcp)
    ++ field (codes "   |-Destination Port : ") (net_short buffer (tcp + 2))
    ++ field (codes "   |-Sequence Number    : ") (net_long buffer (tcp + 4))
    ++ field (codes "   |-Acknowledge Number : ") (net_long buffer (tcp + 8))
    ++ codes "   |-Header Length      : "
    ++ decimal (doff_of buffer tcp)
    ++ codes " DWORDS or "
    ++ decimal (doff_of buffer tcp * 4)
    ++ codes " BYTES\n"
    ++ field (codes "   |-Urgent Flag          : ") (bit flags 5)
    ++ field (codes "   |-Acknowledgement Flag : ") (bit flags 4)
    ++ field (codes "   |-Push Flag            : ") (bit flags 3)
    ++ field (codes "   |-Reset Flag           : ") (bit flags 2)
    ++ field (codes "   |-Synchronise Flag     : ") (bit flags 1)
    ++ field (codes "   |-Finish Flag          : ") (bit flags 0)
    ++ field (codes "   |-Window         : ") (net_short buffer (tcp + 14))
    ++ field (codes "   |-Checksum       : ") (net_short buffer (tcp + 16))
    ++ field (codes "   |-Urgent Pointer : ") (host_short buffer (tcp + 18))

-- The three dumps: from the start of the buffer, behind as many bytes as the IP header has, and
-- behind all the headers. A size below zero prints nothing.
unfoldable pub dumps : List ℕ → List ℕ → (size iphdrlen header header_size : ℕ) → List ℕ
unfolding print_data
dumps title buffer size iphdrlen header header_size =
    codes "IP Header\n"
    ++ print_data buffer iphdrlen
    ++ title
    ++ print_data (drop iphdrlen buffer) header
    ++ codes "Data Payload\n"
    ++ print_data (drop header_size buffer) (size - header_size)

unfoldable pub print_tcp_packet : List ℕ → ℕ → List ℕ
unfolding print_ip_header tcp_fields dumps
print_tcp_packet buffer size =
    let iphdrlen = ihl_of buffer * 4 in
    let tcp = iphdrlen + ethhdr_size in
    let header = doff_of buffer tcp * 4 in
    codes "\n\n"
    ++ stars
    ++ codes "TCP Packet*************************\n"
    ++ print_ip_header buffer
    ++ newline
    ++ tcp_fields buffer tcp
    ++ newline
    ++ codes "                        DATA Dump                         "
    ++ newline
    ++ dumps (codes "TCP Header\n") buffer size iphdrlen header (ethhdr_size + iphdrlen + header)
    ++ last_line

unfoldable pub print_udp_packet : List ℕ → ℕ → List ℕ
unfolding print_ip_header field net_short dumps
print_udp_packet buffer size =
    let iphdrlen = ihl_of buffer * 4 in
    let udp = iphdrlen + ethhdr_size in
    codes "\n\n"
    ++ stars
    ++ codes "UDP Packet*************************\n"
    ++ print_ip_header buffer
    ++ codes "\nUDP Header\n"
    ++ field (codes "   |-Source Port      : ") (net_short buffer udp)
    ++ field (codes "   |-Destination Port : ") (net_short buffer (udp + 2))
    ++ field (codes "   |-UDP Length       : ") (net_short buffer (udp + 4))
    ++ field (codes "   |-UDP Checksum     : ") (net_short buffer (udp + 6))
    ++ newline
    ++ dumps (codes "UDP Header\n") buffer size iphdrlen pointer_size
        (ethhdr_size + iphdrlen + pointer_size)
    ++ last_line

unfoldable pub print_icmp_packet : List ℕ → ℕ → List ℕ
unfolding print_ip_header field net_short decimal dumps
print_icmp_packet buffer size =
    let iphdrlen = ihl_of buffer * 4 in
    let icmp = iphdrlen + ethhdr_size in
    codes "\n\n"
    ++ stars
    ++ codes "ICMP Packet*************************\n"
    ++ print_ip_header buffer
    ++ newline
    ++ codes "ICMP Header\n"
    ++ codes "   |-Type : "
    ++ decimal (at buffer icmp)
    ++ (if at buffer icmp == 11
        then codes "  (TTL Expired)\n"
        else if at buffer icmp == 0
        then codes "  (ICMP Echo Reply)\n"
        else [])
    ++ field (codes "   |-Code : ") (at buffer (icmp + 1))
    ++ field (codes "   |-Checksum : ") (net_short buffer (icmp + 2))
    ++ newline
    ++ dumps (codes "UDP Header\n") buffer size iphdrlen pointer_size
        (ethhdr_size + iphdrlen + pointer_size)
    ++ last_line

unfoldable pub counts_text : Counters → List ℕ
unfolding decimal
counts_text c =
    codes "TCP : "
    ++ decimal c.tcp
    ++ codes "   UDP : "
    ++ decimal c.udp
    ++ codes "   ICMP : "
    ++ decimal c.icmp
    ++ codes "   IGMP : "
    ++ decimal c.igmp
    ++ codes "   Others : "
    ++ decimal c.others
    ++ codes "   Total : "
    ++ decimal c.total
    ++ 13 ∷ []

unfoldable pub printed : Printer → List ℕ → ℕ → List ℕ
unfolding print_tcp_packet print_udp_packet print_icmp_packet
printed print_icmp buffer size = print_icmp_packet buffer size
printed print_tcp buffer size = print_tcp_packet buffer size
printed print_udp buffer size = print_udp_packet buffer size
printed print_nothing buffer size = []

-- `ProcessPacket`: the counters and the text
unfoldable pub process_and_print : List ℕ → ℕ → Counters → Counters × List ℕ
unfolding process_packet protocol_of printed counts_text
process_and_print buffer size counters =
    let (c, printer) = process_packet (protocol_of buffer) counters in
    (c, printed printer buffer size ++ counts_text c)
