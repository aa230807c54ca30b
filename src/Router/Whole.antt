-- ===== src/Router/Whole.antt =====
-- The whole of src/routing/router_n.c: what its loop sends, from the command line and the file of
-- routes on.
use vt_mechanisms.Prelude.{
  ℕ, zero, suc, ◌+◌, ◌≤◌, ◌<◌, ◌≡◌, refl, subst, ◌⊎◌, inl, inr, Bool-cases, List, [], Option, none,
  some, ◌==◌, leb, leb_ℤ, false, arith, length, Option-cases, ℤ, pos, negsuc,
}
use vt_mechanisms.Heap.{Ptr, null, Heap, Run, ok, fault, out_of_fuel}
use vt_mechanisms.Heap.Access.{Ends}
use vt_mechanisms.LinkedList.{Llist, llist_init}
use vt_mechanisms.Routes.{RoutingEntry, Line, populate_routing_list, dst_ip, get_dst_sock_idx}
use vt_mechanisms.Routes.Lookup.{last_route, Routed}
use vt_mechanisms.Routes.Populate.{Fresh, Parsed}
use vt_mechanisms.Routes.File.{Serves, populate_routing_list-Serves}
use vt_mechanisms.Router.{
  CommandOption, Settings, Sent, PollResult, working, State, forward_loop, first_interface,
  interface_names, n_max_taps,
}
use vt_mechanisms.Start.Interfaces.{
  bind_some, some_or, check_settings-some, positive-rounds, length-interface_names,
}
use vt_mechanisms.Router.{read_options}
use vt_mechanisms.Prelude.{==→eq}
use vt_mechanisms.Start.{rounds}
use vt_mechanisms.Router.Setup.{
  fail, named, no_memory, name_loop, Running, Setup, running, process_ended, thread_ended, broken,
  Outside, set_up_sockets, set_up_table, set_up_names, set_up, settings_of, route_of,
}
use vt_mechanisms.Sockets.{Trace}
use vt_mechanisms.Sockets.Balance.{Opens, open_sockets-finish_thread}
use vt_mechanisms.Router.Directs.{All, forward_loop-All}

-- The names are those of `interface_names`, or there is no memory for one.
pub name_loop-cases :
    (switch_name : List ℕ) (mallocs : ℕ → Ptr) (left i start : ℕ)
    → i + left ≤ n_max_taps
    → (name_loop switch_name mallocs left i start ≡ named (interface_names switch_name left start))
      ⊎ (name_loop switch_name mallocs left i start ≡ no_memory)
        × ((k : ℕ) × (k < i + left) × (mallocs k ≡ null))
unfolding name_loop interface_names
name_loop-cases switch_name mallocs zero i start le = inl refl
name_loop-cases switch_name mallocs (suc left) i start le =
    let inside : leb n_max_taps i ≡ false = ground arith in
    elim (Bool-cases (mallocs i == null)) [
      | inl nothing ↦ inr (rw (inside, nothing) refl, (i, omega arith, ==→eq _ _ nothing))
      | inr given ↦
          elim (name_loop-cases switch_name mallocs left (i + 1) (start + 1) (omega arith)) [
            | inl e ↦ inl (rw (inside, given, e) refl)
            | inr (e, (k, lt, at)) ↦ inr (rw (inside, given, e) refl, (k, omega (arith, lt), at))
          ]
    ]

-- The packet goes out by a socket of the array, the one whose interface the last entry for its
-- address names, or the first where no interface has that name.
abbrev pub Directed : List RoutingEntry → Running → Sent → Type 0
Directed es w s =
    (s.dst_sock_idx < length w.socks)
    × Routed w.intf_names (last_route (dst_ip s.pkt) es) (pos s.dst_sock_idx)

-- the loop, before its first call of `poll`
abbrev pub begun : State
begun = record { mode = working; sent = [] }

-- What holds at the head of the loop, with the entries of the file: as many interfaces as asked for,
-- named one after the other, a socket for each, and every packet that the loop will send, whatever
-- its calls of `poll` find, is directed.
pub record Sound (es : List RoutingEntry) (tr : Trace) (w : Running) (g : Heap RoutingEntry)
    (tr' : Trace) : Type 0 where
  pub number : w.settings.n_intfs ≡ pos (length w.intf_names)
  pub names :
      w.intf_names
      ≡ interface_names w.settings.switch_name
          (rounds w.settings.n_intfs)
          (first_interface w.settings.switch_name)
  pub sockets : length w.socks ≡ length w.intf_names
  pub opens : Opens tr tr' w.socks
  pub directed :
      (results : List PollResult)
      → All (Directed es w) (forward_loop (route_of w g) results begun).sent

-- The start comes to the head of the loop with the property, or has ended the program; it does not
-- use memory that is not there.
abbrev pub Reaches : (Running → Heap RoutingEntry → Trace → Type 0) → Setup → Type 0
Reaches P (running w g tr) = P w g tr
Reaches P (process_ended status) = Unit
Reaches P (thread_ended tr) = Unit
Reaches P broken = ⊥

Routed-lt :
    (names : List (List ℕ)) (o : Option (List ℕ)) (i : ℕ)
    → 0 < length names
    → Routed names o (pos i)
    → i < length names
Routed-lt names none i some_names r = cc
Routed-lt names (some intf) i some_names (inl (e, _)) = ground arith
Routed-lt names (some intf) i some_names (inr (j, e, (_, lt))) = ground arith

route_of-Routed :
    (es : List RoutingEntry) (w : Running) (g : Heap RoutingEntry) (p : List ℕ) (idx : ℕ) (i : ℤ)
    → get_dst_sock_idx p w.intf_names w.routing_list g ≡ ok i g
    → Routed w.intf_names (last_route (dst_ip p) es) i
    → route_of w g p ≡ pos idx
    → Routed w.intf_names (last_route (dst_ip p) es) (pos idx)
unfolding route_of
route_of-Routed es w g p idx i run r e =
    let same : i ≡ pos idx = rw (run, route_of) at e in
    subst (Routed w.intf_names (last_route (dst_ip p) es)) same r

pub rounds-pos : (n : ℤ) → leb_ℤ n (pos 0) ≡ false → 0 < rounds n
rounds-pos (pos n) e = ground arith
rounds-pos (negsuc n) e = absurd (ground arith)

pub settings_of-positive :
    (options : List CommandOption) (left : ℕ) (s : Settings)
    → settings_of options left ≡ some s
    → leb_ℤ s.n_intfs (pos 0) ≡ false
unfolding settings_of
settings_of-positive options left s e =
    let (s', _, e') = bind_some (read_options options _) _ s e in check_settings-some s' s left e'

module _ (out : Outside) (h : Heap RoutingEntry) (tr : Trace) (es : List RoutingEntry) where
  module _ (s : Settings) (names : List (List ℕ)) (number : s.n_intfs ≡ pos (length names))
      (positive : 0 < length names)
      (are : names
        ≡ interface_names s.switch_name (rounds s.n_intfs) (first_interface s.switch_name)) where
    sockets-Reaches :
        (l : Llist RoutingEntry) (g : Heap RoutingEntry)
        → ((pkt : List ℕ) (names : List (List ℕ))
            → (i : ℤ) × (get_dst_sock_idx pkt names l g ≡ ok i g)
              × Routed names (last_route (dst_ip pkt) es) i)
        → Reaches (Sound es tr) (set_up_sockets out h tr s names l g)
    unfolding set_up_sockets
    sockets-Reaches l g serves = elim (Bool-cases (out.poll_set == null)) [
      | inl no_set ↦ rw no_set tt
      | inr a_set ↦ elim (open_sockets-finish_thread out.kernel names tr) [
        | inl (socks, tr', _, e, len, o, _, _) ↦
            let w : Running = record {
              settings = s;
              intf_names = names;
              routing_list = l;
              socks = socks;
            } in
            rw (a_set, e)
              (record {
                number = number;
                names = are;
                sockets = len;
                opens = o;
                directed = λ results.
                    forward_loop-All (route_of w g) (Directed es w)
                      (λ p idx e'.
                        let (i, run, r) = serves p names in
                        let r' = route_of-Routed es w g p idx i run r e' in
                        (omega (arith, len, Routed-lt names _ idx positive r'), r'))
                      results begun tt;
              })
        | inr (kept, tr', e, _, _) ↦ rw (a_set, e) tt
      ]
    ]

  module _ (s : Settings) (path : List ℕ) (given : s.routing_file_path ≡ some path)
      (few : rounds s.n_intfs ≤ n_max_taps)
      (readable : (lines : List Line)
        → out.file path ≡ some lines
        → Fresh h lines × Parsed lines es) where
    table-Reaches :
        (names : List (List ℕ))
        → s.n_intfs ≡ pos (length names)
        → 0 < length names
        → names ≡ interface_names s.switch_name (rounds s.n_intfs) (first_interface s.switch_name)
        → Reaches (Sound es tr) (set_up_table out h tr s names)
    unfolding set_up_table
    table-Reaches names number positive are = elim (Option-cases (out.file path)) [
      | inl no_file ↦ rw (given, set_up_table) (rw (no_file, set_up_table) tt)
      | inr (lines, e) ↦
          let (fresh, parsed) = readable lines e in
          rw (given, set_up_table)
            (rw (e, set_up_table)
              (built (populate_routing_list lines llist_init h)
                (populate_routing_list-Serves lines h es fresh parsed)))
    ]
      where
        built :
            (r : Run RoutingEntry (Option (Llist RoutingEntry)))
            → Ends r (Serves es)
            → Reaches (Sound es tr) (elim r [
              | ok r g ↦ elim r [
                | none ↦ process_ended fail
                | some l ↦ set_up_sockets out h tr s names l g
              ]
              | fault ↦ broken
              | out_of_fuel ↦ broken
            ])
        built (ok none g) (l, e, serves) = tt
        built (ok (some k) g) (l, e, serves) =
            let same : k ≡ l = some_or k k l e in
            sockets-Reaches s names number positive are k g (rw same serves)
        built fault ends = ends
        built out_of_fuel ends = ends

    -- Where no more than 100 interfaces are asked for, which the router does not test, the path of the
    -- file is given with fewer than 100 characters, and the file, if it can be opened, has lines that
    -- are read as entries, with memory for each, the start of the router does not use memory that is
    -- not there. It comes to its loop or ends the program. If it comes to the loop, there are as many
    -- interfaces as asked for, named one after the other, with a socket for each, and whatever the
    -- calls of `poll` find, each packet that the loop sends goes out by a socket of the array: the one
    -- of the interface that the last entry of the file for the packet's destination address names, or
    -- the first one where no interface has that name.
    pub set_up-Reaches :
        (options : List CommandOption) (left : ℕ)
        → settings_of options left ≡ some s
        → Reaches (Sound es tr) (set_up out h tr options left)
    unfolding set_up set_up_names
    set_up-Reaches options left e =
        let n = rounds s.n_intfs in
        let start = first_interface s.switch_name in
        let positive = settings_of-positive options left s e in
        let len = length-interface_names s.switch_name n start in
        elim (name_loop-cases s.switch_name out.mallocs n 0 start (omega (arith, few))) [
          | inl named_all ↦
              rw (e, set_up)
                (rw (named_all, set_up_names)
                  (table-Reaches (interface_names s.switch_name n start)
                    (rw len (positive-rounds s.n_intfs positive))
                    (rw len (rounds-pos s.n_intfs positive)) refl))
          | inr (no_space, null_at) ↦ rw (e, set_up) (rw (no_space, set_up_names) tt)
        ]
