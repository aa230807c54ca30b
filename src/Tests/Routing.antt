-- ===== src/Tests/Routing.antt =====
-- The route of a packet in a table of three entries, and a pass over four sockets.
use vt_mechanisms.Prelude.{
  Option, false, ℕ, ◌≡◌, refl, false, ◌||◌, List, [], ◌∷◌, ◌++◌, none, some, arith, ◌==◌,
  if◌then◌else◌, ℤ, pos, negsuc, codes, replicate,
}
use Prim.Native.String.{String}
use vt_mechanisms.Prelude.{◌*◌}
use vt_mechanisms.Routes.{cleanup}
use vt_mechanisms.Routes.Cleanup.{IsCleaned, cleanup_lem}
use vt_mechanisms.Heap.Access.{Ends}
use vt_mechanisms.LinkedList.{llist_init}
use vt_mechanisms.Routes.{Line, parse_line, populate_routing_list}
use vt_mechanisms.Routes.RoundTrip.{route_line, parse_line-route_line}
use vt_mechanisms.Routes.Populate.{Fresh, Parsed}
use vt_mechanisms.Routes.File.{Serves, populate_routing_list-Serves}
use vt_mechanisms.Heap.{Heap, ok}
use vt_mechanisms.LinkedList.{Llist, equals}
use vt_mechanisms.LinkedList.Linked.{Cells, elem, IsList}
use vt_mechanisms.Routes.{RoutingEntry, dst_ip, get_dst_sock_idx}
use vt_mechanisms.Routes.Lookup.{last_route, Routed, get_dst_sock_idx_lem}
use vt_mechanisms.Router.{Socket, not_ready, nothing_read, packet, forward}
use vt_mechanisms.Router.Forwards.{packets, any_ready, routed_prefix, some_unrouted, forward_lem}
use vt_mechanisms.Prelude.{◌+◌}
use vt_mechanisms.Router.{CommandOption, opt_i, opt_n, opt_f, Settings}
use vt_mechanisms.Router.Setup.{Outside, settings_of, set_up}
use vt_mechanisms.Router.Whole.{Sound, Reaches, set_up-Reaches}
use vt_mechanisms.Stub.{Cost}
use vt_mechanisms.RouterThread.{ThreadState, forward_all}
use vt_mechanisms.RouterThread.Sends.{Comes, Partly, forward_all-Sends}

abbrev table : Heap RoutingEntry
table = record {
  nodes =
      λ p. if p == 10 then some (elem 100 20 0) else if p == 20 then some (elem 200 0 10) else none;
  items = λ p.
      if p == 100
      then some (record { ip_address = codes "10.0.0.1"; output_if = codes "s1-eth1" })
      else if p == 200
      then some (record { ip_address = codes "10.0.0.2"; output_if = codes "s1-eth2" })
      else none;
}

abbrev routes : Llist RoutingEntry
routes = record { size = 2; head = 10; tail = 20; equals = equals }

abbrev cells : Cells
cells = (10, 100) ∷ (20, 200) ∷ []

abbrev pub entries : List RoutingEntry
entries =
    (record { ip_address = codes "10.0.0.1"; output_if = codes "s1-eth1" })
    ∷ (record { ip_address = codes "10.0.0.2"; output_if = codes "s1-eth2" })
    ∷ []

routes-IsList : IsList table.nodes routes cells
routes-IsList = record {
  size = refl;
  head = refl;
  tail = refl;
  linked = (refl, ground arith, refl, (refl, ground arith, refl, tt));
}

abbrev names : List (List ℕ)
names = codes "s1-eth1" ∷ codes "s1-eth2" ∷ []

-- a packet for 10.0.0.2
abbrev pkt : List ℕ
pkt = replicate 30 0 ++ 10 ∷ 0 ∷ 0 ∷ 2 ∷ []

get_dst_sock_idx_example :
    (r : ℤ) × (get_dst_sock_idx pkt names routes table ≡ ok r table)
    × Routed names (last_route (dst_ip pkt) entries) r
get_dst_sock_idx_example =
    get_dst_sock_idx_lem table routes cells entries routes-IsList
      (refl, ground arith, (refl, ground arith, tt)) pkt names

-- packets that begin with 9 have no route
abbrev route : List ℕ → ℤ
route [] = pos 0
route (b ∷ bs) = if b == 9 then negsuc 0 else pos b

abbrev sockets : List Socket
sockets = packet (1 ∷ []) ∷ not_ready ∷ packet (9 ∷ []) ∷ nothing_read ∷ []

forward_example :
    ((forward route sockets false).sent ≡ routed_prefix route (packets sockets))
    × ((forward route sockets false).repeated ≡ some_unrouted route (packets sockets))
    × ((forward route sockets false).runnable ≡ (any_ready sockets || false))
forward_example = forward_lem route sockets false

-- the thread with time left for all its calls
abbrev thread : ThreadState
thread = record {
  curr = pos 1000;
  did = [];
  sent = [];
  turns = replicate 20 (record { reply = []; stop = false; garbage = pos 1 });
}

abbrev fifty : Cost → Option ℤ
fifty c = some (pos 50)

forward_all_example :
    Comes
      (forward_all fifty route sockets false thread)
      (λ s'. s'.sent ≡ [] ++ routed_prefix route (packets sockets))
      (Partly fifty route [] (routed_prefix route (packets sockets)))
forward_all_example = forward_all-Sends fifty route sockets false thread

abbrev pub no_memory : Heap RoutingEntry
no_memory = record { nodes = λ p. none; items = λ p. none }

abbrev arrow : List ℕ
arrow = codes "\t=>"

parse_line-route_line_example :
    parse_line (route_line (codes "10.0.0.1") arrow 9 (codes "s1-eth1") ++ 0 ∷ []) 120
    ≡ some (record { ip_address = codes "10.0.0.1"; output_if = codes "s1-eth1" })
parse_line-route_line_example =
    parse_line-route_line (codes "10.0.0.1") arrow 9 (codes "s1-eth1") [] 120 (ground arith)
      (ground arith) refl (ground arith) (omega arith) (omega arith) (omega arith)

abbrev pub line : ℕ → String → String → Line
line n ip intf = record {
  text = route_line (codes ip) arrow 9 (codes intf) ++ 0 ∷ [];
  len = 120;
  new_entry = 100 * n;
  node = 10 * n;
  old_node = elem 7 7 7;
}

abbrev pub lines : List Line
lines = line 1 "10.0.0.1" "s1-eth1" ∷ line 2 "10.0.0.2" "s1-eth2" ∷ []

pub fresh : Fresh no_memory lines
fresh = ground arith

pub read : Parsed lines entries
unfolding parse_line
read = (omega arith, refl, (omega arith, refl, tt))

populate_routing_list-Serves_example :
    Ends (populate_routing_list lines llist_init no_memory) (Serves entries)
populate_routing_list-Serves_example =
    populate_routing_list-Serves lines no_memory entries fresh read

cleanup_example : Ends (cleanup routes table) (IsCleaned table cells entries)
cleanup_example =
    cleanup_lem table routes cells entries routes-IsList
      (refl, ground arith, (refl, ground arith, tt))

abbrev pub options : List CommandOption
options = opt_i (codes "s1") ∷ opt_n (codes "2") ∷ opt_f (codes "routes") ∷ []

-- every file is the one with the two lines, and every call is answered by 3
abbrev surroundings : Outside
surroundings = record {
  mallocs = λ i. 1000 + i;
  poll_set = 2000;
  file = λ path. some lines;
  kernel = λ tr c. pos 3;
}

file-lines :
    (read_lines : List Line)
    → surroundings.file (codes "routes") ≡ some read_lines
    → Fresh no_memory read_lines × Parsed read_lines entries
file-lines read_lines e = let same : lines ≡ read_lines = cc in rw (← same) (fresh, read)

abbrev asked : Settings
asked = record {
  switch_name = codes "s1";
  n_intfs = pos 2;
  routing_file_path = some (codes "routes");
}

asked_lem : settings_of options 0 ≡ some asked
unfolding settings_of
asked_lem = refl

set_up-Reaches_example : Reaches (Sound entries []) (set_up surroundings no_memory [] options 0)
set_up-Reaches_example =
    set_up-Reaches surroundings no_memory [] entries asked (codes "routes") refl (omega arith)
      file-lines options 0 asked_lem
