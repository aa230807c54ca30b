-- ===== src/Router/Setup.antt =====
-- `main` of src/routing/router_n.c from its command line to the head of its loop: the settings, the
-- names, the table and the sockets. `malloc`, the file of routes and the kernel are given by what
-- they answer.
use vt_mechanisms.Prelude.{
  ℕ, zero, suc, ◌+◌, List, [], ◌∷◌, ◌++◌, Option, none, some, ◌==◌, if◌then◌else◌, leb, codes, ℤ,
  pos, negsuc,
}
use vt_mechanisms.Decimal.{print_nat, ◌>>=◌}
use vt_mechanisms.Heap.{Ptr, null, Heap, ok, fault, out_of_fuel}
use vt_mechanisms.LinkedList.{Llist, llist_init}
use vt_mechanisms.Routes.{RoutingEntry, Line, populate_routing_list, get_dst_sock_idx}
use vt_mechanisms.Router.{
  CommandOption, Settings, read_options, check_settings, first_interface, n_max_taps,
}
use vt_mechanisms.Start.{rounds}
use vt_mechanisms.Sockets.{Call, Trace, returned, thread_exit, process_exit, open_sockets}

-- FAIL
abbrev pub fail : ℤ
fail = negsuc 0

-- The loop that names the interfaces: every name is given, `malloc` fails, or the index is behind
-- the array of names.
pub data Named : Type 0 where
  named : List (List ℕ) → Named
  no_memory : Named
  overrun : Named

unfoldable pub cons_name : List ℕ → Named → Named
cons_name name (named names) = named (name ∷ names)
cons_name name no_memory = no_memory
cons_name name overrun = overrun

-- `mallocs i` is the answer to the call for the index `i`, `left` the number of rounds to come.
unfoldable pub name_loop : (switch_name : List ℕ) (mallocs : ℕ → Ptr) → (left i start : ℕ) → Named
unfolding cons_name print_nat
name_loop switch_name mallocs zero i start = named []
name_loop switch_name mallocs (suc left) i start =
    let rest = name_loop switch_name mallocs left (i + 1) (start + 1) in
    if leb n_max_taps i
    then overrun
    else if mallocs i == null
    then no_memory
    else cons_name (switch_name ++ codes "-eth" ++ print_nat start start) rest

-- What `main` holds at the head of its loop.
pub record Running : Type 0 where
  pub settings : Settings
  pub intf_names : List (List ℕ)
  pub routing_list : Llist RoutingEntry
  pub socks : List ℤ

-- The loop is reached, the process has ended by `exit`, the thread of `main` by `pthread_exit`, or
-- memory was used that is not there.
pub data Setup : Type 0 where
  running : Running → Heap RoutingEntry → Trace → Setup
  process_ended : (status : ℤ) → Setup
  thread_ended : Trace → Setup
  broken : Setup

-- What is outside the process: the answers of `malloc` for the names and for the poll set, the lines
-- of a file where it can be opened, and the kernel.
pub record Outside : Type 0 where
  pub mallocs : ℕ → Ptr
  pub poll_set : Ptr
  pub file : List ℕ → Option (List Line)
  pub kernel : Trace → Call → ℤ

-- The settings, or the exit of `usage`. `left` is the number of arguments that are no options.
unfoldable pub settings_of : List CommandOption → (left : ℕ) → Option Settings
unfolding read_options check_settings
settings_of options left = do
  s ← read_options options (record { switch_name = []; n_intfs = pos 0; routing_file_path = none })
  check_settings s left

module _ (out : Outside) (h : Heap RoutingEntry) (tr : Trace) where
  unfoldable pub set_up_sockets :
      Settings → List (List ℕ) → Llist RoutingEntry → Heap RoutingEntry → Setup
  unfolding open_sockets
  set_up_sockets s names l g =
      if out.poll_set == null then thread_ended tr else elim (open_sockets out.kernel names tr) [
        | returned socks tr' ↦
            running (record { settings = s; intf_names = names; routing_list = l; socks = socks }) g
              tr'
        | thread_exit tr' ↦ thread_ended tr'
        | process_exit n tr' ↦ process_ended (pos n)
      ]

  unfoldable pub set_up_table : Settings → List (List ℕ) → Setup
  unfolding set_up_sockets populate_routing_list llist_init
  set_up_table s names = elim s.routing_file_path [
    | none ↦ broken
    | some path ↦ elim (out.file path) [
      | none ↦ process_ended fail
      | some lines ↦ elim (populate_routing_list lines llist_init h) [
        | ok r g ↦ elim r [ none ↦ process_ended fail | some l ↦ set_up_sockets s names l g ]
        | fault ↦ broken
        | out_of_fuel ↦ broken
      ]
    ]
  ]

  unfoldable pub set_up_names : Settings → Setup
  unfolding name_loop first_interface set_up_table
  set_up_names s =
      elim (name_loop s.switch_name out.mallocs (rounds s.n_intfs) 0
        (first_interface s.switch_name)) [
          | named names ↦ set_up_table s names
          | no_memory ↦ process_ended (negsuc 0)
          | overrun ↦ broken
        ]

  unfoldable pub set_up : List CommandOption → (left : ℕ) → Setup
  unfolding set_up_names settings_of
  set_up options left = elim (settings_of options left) [
    | none ↦ process_ended (pos 1)
    | some s ↦ set_up_names s
  ]

-- the lookup of the loop, on the table as it is
unfoldable pub route_of : Running → Heap RoutingEntry → List ℕ → ℤ
route_of w g pkt = elim (get_dst_sock_idx pkt w.intf_names w.routing_list g) [
  | ok i _ ↦ i
  | fault ↦ negsuc 0
  | out_of_fuel ↦ negsuc 0
]
