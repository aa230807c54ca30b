-- ===== src/Routes/File.antt =====
-- From a file of routes to the socket of a packet: `populate_routing_list` and then
-- `get_dst_sock_idx` of src/routing/utils.c.
use vt_mechanisms.Prelude.{ℕ, ℤ, ◌≡◌, List, Option, some, []}
use vt_mechanisms.Heap.{Heap, ok}
use vt_mechanisms.Heap.Access.{Ends, Ends-mono}
use vt_mechanisms.LinkedList.{Llist, llist_init}
use vt_mechanisms.LinkedList.Append.{llist_init_lem}
use vt_mechanisms.Routes.{RoutingEntry, Line, populate_routing_list, dst_ip, get_dst_sock_idx}
use vt_mechanisms.Routes.Lookup.{last_route, Routed, get_dst_sock_idx_lem}
use vt_mechanisms.Routes.Populate.{cells_of, Fresh, Parsed, populate_routing_list_lem, Built}

-- the table routes every packet by these entries, whatever the names of the interfaces
abbrev pub Serves : List RoutingEntry → Option (Llist RoutingEntry) → Heap RoutingEntry → Type 0
Serves es r g =
    (l : Llist RoutingEntry) × (r ≡ some l)
    × ((pkt : List ℕ) (names : List (List ℕ))
        → (i : ℤ) × (get_dst_sock_idx pkt names l g ≡ ok i g)
          × Routed names (last_route (dst_ip pkt) es) i)

-- the table from the empty one, as a list of the entries
pub populate_routing_list-Built :
    (lines : List Line) (h : Heap RoutingEntry) (es : List RoutingEntry)
    → Fresh h lines
    → Parsed lines es
    → Ends (populate_routing_list lines llist_init h) (Built (cells_of lines) es)
populate_routing_list-Built lines h es fresh parsed =
    populate_routing_list_lem lines h llist_init [] [] es (llist_init_lem h, tt) fresh parsed

-- Where a file's lines are all read as entries, with memory for each, the lookup in the table that is
-- built from the empty one gives for every packet a position of the interface that the last entry for
-- its destination address names, 0 where no interface has that name, and -1 without an entry.
pub populate_routing_list-Serves :
    (lines : List Line) (h : Heap RoutingEntry) (es : List RoutingEntry)
    → Fresh h lines
    → Parsed lines es
    → Ends (populate_routing_list lines llist_init h) (Serves es)
populate_routing_list-Serves lines h es fresh parsed =
    Ends-mono _ (Built (cells_of lines) es) _ (populate_routing_list-Built lines h es fresh parsed)
      λ r g (l, e, (is, en)).
        (l, e, λ pkt names. get_dst_sock_idx_lem g l (cells_of lines) es is en pkt names)
