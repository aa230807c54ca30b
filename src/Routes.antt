-- ===== src/Routes.antt =====
-- The routing table of src/routing/utils.c: how a file of routes becomes a list of entries, and how
-- the entry for a packet picks a socket. C strings are the lists of their bytes before the NUL.
pub mod Lookup
pub mod Populate
pub mod RoundTrip
pub mod File
pub mod Listing
pub mod Cleanup
use vt_mechanisms.Prelude.{
  ℕ, zero, suc, ◌+◌, Bool, true, false, ◌&&◌, ◌||◌, not, List, [], ◌∷◌, ◌++◌, Option, none, some,
  ◌==◌, ltb, leb, if◌then◌else◌, drop, replicate, get_or, length, ℤ, pos, negsuc, codes,
}
use vt_mechanisms.Heap.{
  Ptr, null, LlistElem, Heap, Cmd, fault, out_of_fuel, pure, ◌>>=◌, ◌>>◌, load, load_item,
  malloc_item, free_item,
}
use vt_mechanisms.LinkedList.{Llist, llist_append, llist_pop, llist_destroy}
use vt_mechanisms.Decimal.{print_nat}

abbrev pub bufsize : ℕ
bufsize = 2000

abbrev pub ip_addr_size : ℕ
ip_addr_size = 20

abbrev pub if_name_size : ℕ
if_name_size = 100

-- struct routing_table_entry
pub record RoutingEntry : Type 0 where
  pub ip_address : List ℕ
  pub output_if : List ℕ

-- `flush_buffer`
unfoldable pub flush_buffer : List ℕ → ℕ → List ℕ
flush_buffer buf zero = buf
flush_buffer [] (suc size) = []
flush_buffer (c ∷ buf) (suc size) = 0 ∷ flush_buffer buf size

-- the C string that begins a buffer
unfoldable pub c_string : List ℕ → List ℕ
c_string [] = []
c_string (c ∷ s) = if c == 0 then [] else c ∷ c_string s

-- `strcmp(a, b) == 0`
unfoldable pub str_eq : List ℕ → List ℕ → Bool
str_eq [] [] = true
str_eq [] (d ∷ t) = false
str_eq (c ∷ s) [] = false
str_eq (c ∷ s) (d ∷ t) = (c == d) && str_eq s t

abbrev pub is_separator : ℕ → Bool
is_separator c = (c == b' ') || ((c == 9) || (c == 10))

-- The loop over `tmp`: separators become NUL, and `if_idx` goes behind each but a newline.
unfoldable pub cut : List ℕ → (i if_idx : ℕ) → List ℕ × ℕ
cut [] i if_idx = ([], if_idx)
cut (c ∷ tmp) i if_idx =
    let (rest, last) =
      cut tmp (i + 1) (if is_separator c && not (c == 10) then i + 1 else if_idx) in
    ((if is_separator c then 0 else c) ∷ rest, last)

-- One line of the file, with the size `len` of the buffer that `getline` holds it in. `none` is a
-- write behind `tmp`, behind a field of the entry, or a read behind `tmp`.
unfoldable pub parse_line : List ℕ → ℕ → Option RoutingEntry
unfolding c_string cut
parse_line line len =
    let (tmp, if_idx) = cut (c_string line) 0 0 in
    let ip = c_string tmp in
    let intf = c_string (drop if_idx tmp) in
    if leb len bufsize && (ltb (length ip) ip_addr_size && ltb (length intf) if_name_size)
    then some (record { ip_address = ip; output_if = intf })
    else none

-- A line that `getline` gives, and what the two calls of `malloc` for it return.
pub record Line : Type 0 where
  pub text : List ℕ
  pub len : ℕ
  pub new_entry : Ptr
  pub node : Ptr
  pub old_node : LlistElem

-- The loop of `populate_routing_list` over the lines; `pure none` is the exit without memory. The
-- first `getline` makes `len` larger than 1, so that its test always holds.
unfoldable pub populate_routing_list :
    List Line → Llist RoutingEntry → Cmd RoutingEntry (Option (Llist RoutingEntry))
unfolding parse_line
populate_routing_list [] routing_list = pure (some routing_list)
populate_routing_list (line ∷ lines) routing_list =
    let rest = (λ (e : RoutingEntry). do
      malloc_item line.new_entry e
      (_, routing_list') ← llist_append line.node line.old_node routing_list line.new_entry
      populate_routing_list lines routing_list') in
    if ltb 1 line.len
    then (if line.new_entry == null then pure none else λ h. elim (parse_line line.text line.len) [
      | none ↦ fault
      | some e ↦ rest e h
    ])
    else populate_routing_list lines routing_list

-- `cleanup`
pub cleanup : Llist RoutingEntry → Cmd RoutingEntry (Llist RoutingEntry)
cleanup routing_list = do
  (entry, routing_list') ← llist_pop routing_list
  if entry == null then (free_item entry >> pure routing_list') else llist_destroy routing_list'

-- `inet_ntoa` of the four bytes of an address
unfoldable pub inet_ntoa : (a b c d : ℕ) → List ℕ
unfolding print_nat
inet_ntoa a b c d =
    print_nat a a ++ b'.' ∷ (print_nat b b ++ b'.' ∷ (print_nat c c ++ b'.' ∷ print_nat d d))

-- The text of the destination address: bytes 16 to 19 of the IP header, behind an Ethernet header
-- of 14 bytes. The buffer has 2000 bytes.
unfoldable pub dst_ip : List ℕ → List ℕ
unfolding inet_ntoa
dst_ip pkt = inet_ntoa (get_or pkt 30 0) (get_or pkt 31 0) (get_or pkt 32 0) (get_or pkt 33 0)

-- The walk through the table: a later entry for the same address replaces an earlier one.
find_route : ℕ → List ℕ → Option (List ℕ) → Ptr → Cmd RoutingEntry (Option (List ℕ))
unfolding str_eq
find_route zero ip dst_intf head = λ _. out_of_fuel
find_route (suc k) ip dst_intf head = if head == null then pure dst_intf else do
  n ← load head
  entry ← load_item n.item
  find_route k ip (if str_eq entry.ip_address ip then some entry.output_if else dst_intf) n.next

-- The position of a name among those from the index `i` on, or `missing`.
unfoldable pub index_of_name : ℤ → List ℕ → List (List ℕ) → ℕ → ℤ
unfolding str_eq
index_of_name missing intf [] i = missing
index_of_name missing intf (name ∷ names) i =
    let rest = index_of_name missing intf names (i + 1) in if str_eq intf name then pos i else rest

-- `get_dst_sock_idx`: -1 without a route; 0 where no interface has the route's name
pub get_dst_sock_idx : List ℕ → List (List ℕ) → Llist RoutingEntry → Cmd RoutingEntry ℤ
unfolding dst_ip find_route index_of_name
get_dst_sock_idx pkt intf_names routes = do
  dst_intf ← find_route (routes.size + 1) (dst_ip pkt) none routes.head
  pure (elim dst_intf [ none ↦ negsuc 0 | some intf ↦ index_of_name (pos 0) intf intf_names 0 ])

-- `intf_name_to_sock_idx`, where its second argument is the array of names that the body reads
unfoldable pub intf_name_to_sock_idx : List ℕ → List (List ℕ) → ℤ
unfolding index_of_name
intf_name_to_sock_idx intf intf_names = index_of_name (negsuc 0) intf intf_names 0
