-- ===== src/Start/Ready.antt =====
-- What the start of src/routing/router_app_vt.c has built when `main` comes to its loop: the thread's
-- arguments, the table of routes and the table of costs together.
use vt_mechanisms.Prelude.{◌⊎◌, ltb_ℤ, ◌==ℤ◌, Bool-cases}
use vt_mechanisms.Start.Prepare.{prepare_pipes}
use vt_mechanisms.Start.Spinner.{synchronizer}
use vt_mechanisms.Prelude.{
  ℕ, ◌≤◌, ◌<◌, ◌≡◌, ◌≢◌, refl, ◌∙◌, Bool, true, false, List, [], ◌∷◌, Option, none, some, ℤ, pos,
  negsuc, arith, length, inl, inr, Option-cases, leb_ℤ, if◌then◌else◌,
}
use vt_mechanisms.Heap.{null, Heap, Run, ok, fault, out_of_fuel}
use vt_mechanisms.Heap.Access.{Ends}
use vt_mechanisms.LinkedList.{Llist, llist_init}
use vt_mechanisms.LinkedList.Linked.{Cells, IsList}
use vt_mechanisms.HashMap.{hmap_destroy}
use vt_mechanisms.HashMap.Map.{IsMap}
use vt_mechanisms.HashMap.Destroy.{FreesAll}
use vt_mechanisms.Routes.{cleanup}
use vt_mechanisms.Routes.Cleanup.{IsCleaned, cleanup_lem}
use vt_mechanisms.Routes.Lookup.{get_dst_sock_idx_lem}
use vt_mechanisms.Routes.Populate.{Built, IsTable, cells_of}
use vt_mechanisms.Routes.File.{populate_routing_list-Built}
use vt_mechanisms.Stub.Times.{Destroyed, init_func_times-Serves}
use vt_mechanisms.Start.Prepare.{Closing, closed, lost, close_down}
use vt_mechanisms.HashMap.{Hashmap, HashmapElem}
use vt_mechanisms.Stub.{Cost, costs, init_func_times}
use vt_mechanisms.Stub.Times.{Charges, Unused}
use vt_mechanisms.Routes.{RoutingEntry, Line, populate_routing_list, dst_ip, get_dst_sock_idx}
use vt_mechanisms.Routes.Lookup.{last_route, Routed}
use vt_mechanisms.Routes.Populate.{Fresh, Parsed}
use vt_mechanisms.Router.{CommandOption, Settings, first_interface, interface_names, n_max_taps}
use vt_mechanisms.Router.Setup.{fail, settings_of}
use vt_mechanisms.Router.Whole.{name_loop-cases, rounds-pos, settings_of-positive}
use vt_mechanisms.Start.{ThreadArgs, rounds, args_of}
use vt_mechanisms.Start.Interfaces.{Given, args_of-Given, some_or, length-interface_names}
use vt_mechanisms.Start.Spinner.{exited, became, returned, create_spinner_task}
use vt_mechanisms.Start.Prepare.{
  Machine, Prepared, Start, prepared, ended, replaced, broken, prepare_spinner, prepare_args,
  prepare_times, prepare_table, prepare_names, prepare,
}

-- Both tables are freed: the table of routes is empty and its nodes are gone, but none of its entries;
-- the nodes and elements of the table of costs are gone.
abbrev pub Closes : Prepared → Cells → List RoutingEntry → (ℕ → Cells) → Closing → Type 0
Closes p xs es cells (closed l g gt) =
    IsCleaned p.entries xs es l g × FreesAll p.times gt cells p.func_times_us.size
Closes p xs es cells lost = ⊥

close_down-Closes :
    (p : Prepared) (xs : Cells) (es : List RoutingEntry) (cells : ℕ → Cells)
    → Ends (cleanup p.routing_list p.entries) (IsCleaned p.entries xs es)
    → Ends
        (hmap_destroy p.func_times_us p.times)
        (λ _ gt. FreesAll p.times gt cells p.func_times_us.size)
    → Closes p xs es cells (close_down p)
unfolding close_down
close_down-Closes p xs es cells cleans frees =
    both (cleanup p.routing_list p.entries) (hmap_destroy p.func_times_us p.times) cleans frees
  where
    both :
        (r : Run RoutingEntry (Llist RoutingEntry)) (d : Run HashmapElem (Unit {0}))
        → Ends r (IsCleaned p.entries xs es)
        → Ends d (λ _ gt. FreesAll p.times gt cells p.func_times_us.size)
        → Closes p xs es cells (elim r [
          | ok l g ↦ elim d [ ok _ gt ↦ closed l g gt | fault ↦ lost | out_of_fuel ↦ lost ]
          | fault ↦ lost
          | out_of_fuel ↦ lost
        ])
    both (ok l g) (ok u gt) a b = (a, b)
    both (ok l g) fault a b = b
    both (ok l g) out_of_fuel a b = b
    both fault d a b = a
    both out_of_fuel d a b = a

-- The thread has the interfaces asked for, named one after the other; the table routes every packet by
-- the entries of the file; `update_stub` charges each function its cost; and the end of `main` frees
-- what the two tables hold.
pub record Ready (out : Machine) (es : List RoutingEntry) (s : Settings) (p : Prepared)
    : Type 0 where
  pub given : Given p.args
  pub names :
      p.args.intf_names
      ≡ interface_names s.switch_name (rounds s.n_intfs) (first_interface s.switch_name)
  pub routes :
      (pkt : List ℕ)
      → (i : ℤ) × (get_dst_sock_idx pkt p.args.intf_names p.routing_list p.entries ≡ ok i p.entries)
        × Routed p.args.intf_names (last_route (dst_ip pkt) es) i
  pub charges : Charges out.fresh out.address p.func_times_us p.times
  pub closes :
      (xs : Cells) × (cells : ℕ → Cells) × IsList p.entries.nodes p.routing_list xs
      × IsMap p.times p.func_times_us cells
      × Closes p xs es cells (close_down p)

-- What ends the program before the loop: no memory for one of the names, a file that cannot be opened,
-- a pipe that cannot, a `fork` that fails or is the child's, or no /proc/status.
abbrev pub Cause : Machine → (n : ℕ) → (path : List ℕ) → Type 0
Cause out n path =
    ((k : ℕ) × (k < n) × (out.mallocs k ≡ null))
    ⊎ (out.file path ≡ none)
    ⊎ (ltb_ℤ out.to_thread (pos 0) ≡ true)
    ⊎ (ltb_ℤ out.to_main (pos 0) ≡ true)
    ⊎ (out.child ≡ negsuc 0)
    ⊎ (out.child ≡ pos 0)
    ⊎ (out.opened ≡ false)

-- The start comes to the loop with the property, or there is a cause why it has ended the program, or
-- this is the spinner's process; it does not use memory that is not there.
abbrev pub Prepares : Machine → (n : ℕ) → List ℕ → (Prepared → Type 0) → Start → Type 0
Prepares out n path P (prepared p) = P p
Prepares out n path P (ended status) = Cause out n path
Prepares out n path P (replaced program) = out.child ≡ pos 0
Prepares out n path P broken = ⊥

eq_of : {x y : ℤ} → (x ==ℤ y) ≡ true → x ≡ y
eq_of e = ground (arith, e)

args_of-some :
    (s : Settings) (names : List (List ℕ))
    → 0 < length names
    → (a : ThreadArgs) × (args_of s names ≡ some a) × (a.intf_names ≡ names)
unfolding args_of
args_of-some s [] some_names = absurd (ground arith)
args_of-some s (name ∷ names) some_names = (_, refl, refl)

module _ (out : Machine) (h : Heap RoutingEntry) (ht : Heap HashmapElem) where
  module _ (n : ℕ) (path : List ℕ) (P : Prepared → Type 0) (p : Prepared) (good : P p) where
    -- the process behind `fork`
    forked :
        (child execs : ℤ) (opened : Bool)
        → out.child ≡ child
        → out.opened ≡ opened
        → Prepares out n path P (elim (create_spinner_task child execs) [
          | exited status ↦ ended status
          | became program ↦ replaced program
          | returned child_pid result ↦ if opened then prepared p else ended (negsuc 0)
        ])
    unfolding create_spinner_task
    forked child execs opened ec eo = elim (Bool-cases (child ==ℤ negsuc 0)) [
      | inl failed ↦
          simp (failed, create_spinner_task) (inr (inr (inr (inr (inl (ec ∙ eq_of failed))))))
      | inr some_child ↦ elim (Bool-cases (child ==ℤ pos 0)) [
        | inl here ↦
            simp (some_child, here, create_spinner_task)
              (spinner (execs ==ℤ negsuc 0) (ec ∙ eq_of here))
        | inr parent ↦ simp (some_child, parent, create_spinner_task) (behind opened eo)
      ]
    ]
      where
        spinner :
            (no_exec : Bool)
            → out.child ≡ pos 0
            → Prepares out n path P
                (elim (if no_exec then exited (pos 2) else became synchronizer) [
                  | exited status ↦ ended status
                  | became program ↦ replaced program
                  | returned child_pid result ↦ if opened then prepared p else ended (negsuc 0)
                ])
        spinner true e = inr (inr (inr (inr (inr (inl e)))))
        spinner false e = e

        behind :
            (b : Bool)
            → out.opened ≡ b
            → Prepares out n path P (if b then prepared p else ended (negsuc 0))
        behind true e = good
        behind false e = inr (inr (inr (inr (inr (inr e)))))

    prepare_spinner-Prepares : Prepares out n path P (prepare_spinner out h ht p)
    unfolding prepare_spinner
    prepare_spinner-Prepares = forked out.child out.execs out.opened refl refl

    prepare_pipes-Prepares : Prepares out n path P (prepare_pipes out h ht p)
    unfolding prepare_pipes
    prepare_pipes-Prepares = elim (Bool-cases (ltb_ℤ out.to_thread (pos 0))) [
      | inl no_pipe ↦ rw no_pipe (inr (inr (inl no_pipe)))
      | inr first ↦ elim (Bool-cases (ltb_ℤ out.to_main (pos 0))) [
        | inl no_pipe ↦ rw (first, no_pipe) (inr (inr (inr (inl no_pipe))))
        | inr second ↦ rw (first, second) prepare_spinner-Prepares
      ]
    ]

  module _ (es : List RoutingEntry) (s : Settings) (path : List ℕ) (names : List (List ℕ))
      (are : names
        ≡ interface_names s.switch_name (rounds s.n_intfs) (first_interface s.switch_name))
      (positive : leb_ℤ s.n_intfs (pos 0) ≡ false) (few : rounds s.n_intfs ≤ n_max_taps)
      (unused : Unused out.fresh ht costs) (placed : (c : Cost) → out.address c ≢ null) where
    many : length names ≡ rounds s.n_intfs
    many = rw are (length-interface_names s.switch_name _ _)

    args-Prepares :
        (l : Llist RoutingEntry) (g : Heap RoutingEntry) (m : Hashmap) (gt : Heap HashmapElem)
        → (xs : Cells) → IsTable g l xs es
        → Charges out.fresh out.address m gt × Destroyed out.fresh out.address m gt
        → Prepares out
            (rounds s.n_intfs)
            path
            (Ready out es s)
            (prepare_args out h ht s names l g m gt)
    unfolding prepare_args
    args-Prepares l g m gt xs (is, en) (charges, (cells, im, at, ends)) =
        let (a, e, same) =
          args_of-some s names (omega (arith, many, rounds-pos s.n_intfs positive)) in
        rw (e, prepare_args)
          (prepare_pipes-Prepares (rounds s.n_intfs) path (Ready out es s) _ (record {
            given = args_of-Given s names a positive many few e;
            names = same ∙ are;
            routes = λ pkt. get_dst_sock_idx_lem g l xs es is en pkt a.intf_names;
            charges = charges;
            closes = (
              xs,
              cells,
              is,
              im,
              close_down-Closes _ xs es cells (cleanup_lem g l xs es is en) ends,
            );
          }))

    times-Prepares :
        (l : Llist RoutingEntry) (g : Heap RoutingEntry)
        → (xs : Cells) → IsTable g l xs es
        → Prepares out (rounds s.n_intfs) path (Ready out es s) (prepare_times out h ht s names l g)
    unfolding prepare_times
    times-Prepares l g xs table =
        filled (init_func_times out.address out.fresh out.call out.ints ht)
          (init_func_times-Serves out.fresh out.address out.call out.ints ht unused placed)
      where
        filled :
            (r : Run HashmapElem Hashmap)
            → Ends r
                (λ m gt. Charges out.fresh out.address m gt × Destroyed out.fresh out.address m gt)
            → Prepares out (rounds s.n_intfs) path (Ready out es s) (elim r [
              | ok m gt ↦ prepare_args out h ht s names l g m gt
              | fault ↦ broken
              | out_of_fuel ↦ broken
            ])
        filled (ok m gt) good = args-Prepares l g m gt xs table good
        filled fault ends = ends
        filled out_of_fuel ends = ends

    table-Prepares :
        s.routing_file_path ≡ some path
        → (lines : List Line) → out.file path ≡ some lines
        → Fresh h lines
        → Parsed lines es
        → Prepares out (rounds s.n_intfs) path (Ready out es s) (prepare_table out h ht s names)
    unfolding prepare_table
    table-Prepares given lines e fresh parsed =
        simp (given, prepare_table)
          (rw (e, prepare_table)
            (built (populate_routing_list lines llist_init h)
              (populate_routing_list-Built lines h es fresh parsed)))
      where
        built :
            (r : Run RoutingEntry (Option (Llist RoutingEntry)))
            → Ends r (Built (cells_of lines) es)
            → Prepares out (rounds s.n_intfs) path (Ready out es s) (elim r [
              | ok r g ↦ elim r [ none ↦ ended fail | some l ↦ prepare_times out h ht s names l g ]
              | fault ↦ broken
              | out_of_fuel ↦ broken
            ])
        built (ok none g) (l, e, table) = cc
        built (ok (some k) g) (l, e, table) =
            let same : k ≡ l = some_or k k l e in
            times-Prepares k g (cells_of lines) (rw same table)
        built fault ends = ends
        built out_of_fuel ends = ends

  -- Where no more than 100 interfaces are asked for, which the router does not test, the path of the
  -- file is given with fewer than 100 characters, the file, if it can be opened, has lines that are
  -- read as entries, with memory for each, and there is memory for the table of costs, the start of
  -- the virtual-time router does not use memory that is not there. It comes to its loop unless
  -- `malloc` fails for a name, the file, a pipe or /proc/status cannot be opened, or `fork` fails or
  -- is the child's. At the loop the thread has been given as many interfaces as asked for, named one
  -- after the other, and is neither blocked nor told to stop; the table gives for each packet the
  -- index of the interface of the last entry for its destination address, 0 where no interface has
  -- that name, and -1 without an entry; and `update_stub` charges every function that has a cost what
  -- stands at the address of that cost. The end of `main` then runs without a fault, and frees both
  -- tables, but for the entries of the table of routes.
  pub prepare-Ready :
      (es : List RoutingEntry) (options : List CommandOption) (left : ℕ) (s : Settings)
      (path : List ℕ)
      → settings_of options left ≡ some s
      → rounds s.n_intfs ≤ n_max_taps
      → s.routing_file_path ≡ some path
      → ((lines : List Line) → out.file path ≡ some lines → Fresh h lines × Parsed lines es)
      → Unused out.fresh ht costs
      → ((c : Cost) → out.address c ≢ null)
      → Prepares out (rounds s.n_intfs) path (Ready out es s) (prepare out h ht options left)
  unfolding prepare prepare_names prepare_table
  prepare-Ready es options left s path e few given readable unused placed =
      let n = rounds s.n_intfs in
      let start = first_interface s.switch_name in
      let names = interface_names s.switch_name n start in
      elim (name_loop-cases s.switch_name out.mallocs n 0 start (omega (arith, few))) [
        | inl named_all ↦
            rw (e, prepare)
              (rw (named_all, prepare_names)
                (elim (Option-cases (out.file path)) [
                  | inl no_file ↦
                      simp (given, prepare_table) (rw (no_file, prepare_table) (inr (inl no_file)))
                  | inr (lines, e') ↦
                      let (fresh, parsed) = readable lines e' in
                      table-Prepares es s path names refl (settings_of-positive options left s e)
                        few unused placed given lines e' fresh parsed
                ]))
        | inr (no_space, (k, lt, at)) ↦
            rw (e, prepare) (rw (no_space, prepare_names) (inl (k, omega (arith, lt), at)))
      ]
