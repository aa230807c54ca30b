-- ===== src/Start/Prepare.antt =====
-- `main` of src/routing/router_app_vt.c from its command line to the head of its loop: the names, the
-- table of routes, the table of costs, the thread's arguments and the spinner; and its end. What stands
-- outside the process is given by what it answers.
use vt_mechanisms.Prelude.{ℕ, Bool, List, Option, none, some, if◌then◌else◌, ltb_ℤ, ℤ, pos, negsuc}
use vt_mechanisms.Heap.{Ptr, Heap, ok, fault, out_of_fuel}
use vt_mechanisms.LinkedList.{Llist, llist_init}
use vt_mechanisms.HashMap.{Hashmap, HashmapElem, HCmd, hmap_destroy}
use vt_mechanisms.Stub.{Cost, Fresh, init_func_times}
use vt_mechanisms.Routes.{RoutingEntry, Line, populate_routing_list, cleanup}
use vt_mechanisms.Router.{CommandOption, Settings, first_interface}
use vt_mechanisms.Router.Setup.{fail, named, no_memory, overrun, name_loop, settings_of}
use vt_mechanisms.Start.{ThreadArgs, rounds, args_of}
use vt_mechanisms.Start.Spinner.{exited, became, returned, create_spinner_task}

-- `malloc` for the names, the lines of a file where it can be opened, the answers of the two calls of
-- `pipe`, of `fork` and of `execvp`, whether /proc/status can be opened, and for the table of costs the addresses of the costs,
-- the memory for its entries, and what stands behind its pointers.
pub record Machine : Type 0 where
  pub mallocs : ℕ → Ptr
  pub file : List ℕ → Option (List Line)
  pub to_thread : ℤ
  pub to_main : ℤ
  pub child : ℤ
  pub execs : ℤ
  pub opened : Bool
  pub address : Cost → Ptr
  pub fresh : Cost → Fresh
  pub call : Ptr → Ptr → Ptr → HCmd ℤ
  pub ints : Ptr → Option ℤ

-- What the process holds at the head of the loop.
pub record Prepared : Type 0 where
  pub args : ThreadArgs
  pub routing_list : Llist RoutingEntry
  pub entries : Heap RoutingEntry
  pub func_times_us : Hashmap
  pub times : Heap HashmapElem

-- The loop is reached, the process has ended by `exit`, it has become another program, or memory was
-- used that is not there.
pub data Start : Type 0 where
  prepared : Prepared → Start
  ended : (status : ℤ) → Start
  replaced : (path : List ℕ) → Start
  broken : Start

module _ (out : Machine) (h : Heap RoutingEntry) (ht : Heap HashmapElem) where
  -- behind `pthread_create`
  unfoldable pub prepare_spinner : Prepared → Start
  unfolding create_spinner_task
  prepare_spinner p = elim (create_spinner_task out.child out.execs) [
    | exited status ↦ ended status
    | became path ↦ replaced path
    | returned child_pid result ↦ if out.opened then prepared p else ended (negsuc 0)
  ]

  -- the two calls of `open_pipe`
  unfoldable pub prepare_pipes : Prepared → Start
  unfolding prepare_spinner
  prepare_pipes p =
      if ltb_ℤ out.to_thread (pos 0)
      then ended (pos 1)
      else if ltb_ℤ out.to_main (pos 0)
      then ended (pos 1)
      else prepare_spinner p

  unfoldable pub prepare_args :
      Settings
      → List (List ℕ)
      → Llist RoutingEntry
      → Heap RoutingEntry
      → Hashmap
      → Heap HashmapElem
      → Start
  unfolding prepare_pipes args_of
  prepare_args s names l g m gt = elim (args_of s names) [
    | none ↦ broken
    | some a ↦
        prepare_pipes
          (record { args = a; routing_list = l; entries = g; func_times_us = m; times = gt })
  ]

  unfoldable pub prepare_times :
      Settings → List (List ℕ) → Llist RoutingEntry → Heap RoutingEntry → Start
  unfolding prepare_args init_func_times
  prepare_times s names l g = elim (init_func_times out.address out.fresh out.call out.ints ht) [
    | ok m gt ↦ prepare_args s names l g m gt
    | fault ↦ broken
    | out_of_fuel ↦ broken
  ]

  unfoldable pub prepare_table : Settings → List (List ℕ) → Start
  unfolding prepare_times populate_routing_list llist_init
  prepare_table s names = elim s.routing_file_path [
    | none ↦ broken
    | some path ↦ elim (out.file path) [
      | none ↦ ended fail
      | some lines ↦ elim (populate_routing_list lines llist_init h) [
        | ok r g ↦ elim r [ none ↦ ended fail | some l ↦ prepare_times s names l g ]
        | fault ↦ broken
        | out_of_fuel ↦ broken
      ]
    ]
  ]

  unfoldable pub prepare_names : Settings → Start
  unfolding name_loop first_interface prepare_table
  prepare_names s =
      elim (name_loop s.switch_name out.mallocs (rounds s.n_intfs) 0
        (first_interface s.switch_name)) [
          | named names ↦ prepare_table s names
          | no_memory ↦ ended (negsuc 0)
          | overrun ↦ broken
        ]

  unfoldable pub prepare : List CommandOption → (left : ℕ) → Start
  unfolding prepare_names settings_of
  prepare options left = elim (settings_of options left) [
    | none ↦ ended (pos 1)
    | some s ↦ prepare_names s
  ]

-- What is left when `main` has freed its tables.
pub data Closing : Type 0 where
  closed : Llist RoutingEntry → (entries : Heap RoutingEntry) → (times : Heap HashmapElem) → Closing
  lost : Closing

-- The end of `main` behind `pthread_join`, less the loop that frees the names.
unfoldable pub close_down : Prepared → Closing
close_down p = elim (cleanup p.routing_list p.entries) [
  | ok l g ↦ elim (hmap_destroy p.func_times_us p.times) [
    | ok _ gt ↦ closed l g gt
    | fault ↦ lost
    | out_of_fuel ↦ lost
  ]
  | fault ↦ lost
  | out_of_fuel ↦ lost
]
