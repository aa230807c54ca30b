-- ===== src/Stub/Times.antt =====
-- The table of costs that `init_func_times` of src/routing/utils.c fills.
use vt_mechanisms.Prelude.{
  pos_part, ℕ, ◌%◌, ◌≡◌, refl, sym, ap, ◌∙◌, subst, ◌≢◌, Bool-cases, inl, inr, false, List, [], ◌∷◌,
  Option, none, some, ◌==◌, if◌then◌else◌, ℤ, pos, arith, ==→eq,
}
use vt_mechanisms.Heap.{Ptr, null, Heap, ok}
use vt_mechanisms.Heap.Access.{Ends, Ends-both, Ends-and_then, Ends-mono}
use vt_mechanisms.LinkedList.Linked.{Cells}
use vt_mechanisms.Hash.{name_key}
use vt_mechanisms.HashMap.Separate.{Separate, Held}
use vt_mechanisms.HashMap.Destroy.{FreesAll, hmap_destroy_lem}
use vt_mechanisms.HashMap.{hmap_destroy}
use vt_mechanisms.HashMap.{HashmapElem, Hashmap, HCmd, bucket_index, hmap_init}
use vt_mechanisms.HashMap.Map.{IsMap, lookup}
use vt_mechanisms.HashMap.Put.{IsPut, hmap_put_abs_lem}
use vt_mechanisms.HashMap.Init.{no_cells, hmap_init_lem}
use vt_mechanisms.Stub.Table.{cost_at, update_stub_lem}
use vt_mechanisms.Stub.{
  update_stub, update_stub_after, Cost, cost_name, costs, Fresh, put_time, put_times,
  init_func_times, recvfrom, raw_socket, set_promisc, intf_name_to_sock_idx, get_dst_sock_idx,
  send_packet, poll, flush_buffer,
}

-- the hash of each name, as an absolute value
abbrev key_value : Cost → ℕ
key_value recvfrom = 903716788
key_value raw_socket = 391086606
key_value set_promisc = 1913337633
key_value intf_name_to_sock_idx = 410930853
key_value get_dst_sock_idx = 1474094221
key_value send_packet = 862327557
key_value poll = 1367072374
key_value flush_buffer = 1889486682

name_key-cost_name : (c : Cost) → name_key (cost_name c) ≡ pos (key_value c)
unfolding name_key cost_name
name_key-cost_name recvfrom = refl
name_key-cost_name raw_socket = refl
name_key-cost_name set_promisc = refl
name_key-cost_name intf_name_to_sock_idx = refl
name_key-cost_name get_dst_sock_idx = refl
name_key-cost_name send_packet = refl
name_key-cost_name poll = refl
name_key-cost_name flush_buffer = refl

cost_at-live : (times : Ptr → ℤ) (p : Ptr) → p ≢ null → cost_at times p ≡ some (times p)
cost_at-live times p ne = let there : (p == null) ≡ false = ground (arith, ne) in rw there refl

different : {a b : ℕ} → pos a ≡ pos b → (b == a) ≡ false → ⊥
different e other = let same = ap pos_part e in ground (arith, same)

-- a name has a bucket in a table of the size 1000
cost_bucket :
    (m : Hashmap) (c : Cost)
    → m.size ≡ 1000
    → bucket_index (name_key (cost_name c)) m.size ≡ some (key_value c % 1000)
unfolding bucket_index
cost_bucket m c e = rw (e, name_key-cost_name c, bucket_index) refl

-- `malloc` gives the calls addresses that are not in use, each to one of them
module _ (fresh : Cost → Fresh) where
  abbrev pub Apart : Cost → List Cost → Type 0
  Apart c [] = Unit
  Apart c (d ∷ cs) =
      ((fresh d).new_elem ≢ (fresh c).new_elem) × ((fresh d).node ≢ (fresh c).node) × Apart c cs

  abbrev pub Unused : Heap HashmapElem → List Cost → Type 0
  Unused h [] = Unit
  Unused h (c ∷ cs) =
      (((fresh c).new_elem ≢ null) × (h.items (fresh c).new_elem ≡ none))
      × (((fresh c).node ≢ null) × (h.nodes (fresh c).node ≡ none))
      × Apart c cs
      × Unused h cs

  Unused-kept :
      (h g : Heap HashmapElem) (c : Cost) (cs : List Cost)
      → ((a : Ptr) → a ≢ (fresh c).new_elem → h.items a ≡ none → g.items a ≡ none)
      → ((a : Ptr) → a ≢ (fresh c).node → h.nodes a ≡ none → g.nodes a ≡ none)
      → Apart c cs
      → Unused h cs
      → Unused g cs
  Unused-kept h g c [] items nodes apart u = tt
  Unused-kept h g c (d ∷ cs) items nodes (ne, nn, apart) u = (
    (u.0.0, items (fresh d).new_elem ne u.0.1),
    (u.1.0, nodes (fresh d).node nn u.1.1),
    u.2,
    Unused-kept h g c cs items nodes apart u.3,
  )

  module _ (address : Cost → Ptr) where
    -- what is found under the key of `c` after these calls
    abbrev value_after : List Cost → Ptr → Cost → Ptr
    value_after [] old c = old
    value_after (d ∷ cs) old c =
        value_after cs (if key_value d == key_value c then address d else old) c

    abbrev Filled : (Cost → Ptr) → Hashmap → Heap HashmapElem → Type 0
    Filled values m g =
        (cells : ℕ → Cells) × IsMap g m cells
        × (m.size ≡ 1000)
        × (Separate cells × Held g cells)
        × ((c : Cost) → lookup g.items m.size cells (name_key (cost_name c)) ≡ values c)

    -- one put, seen under each key
    put-values :
        (h g : Heap HashmapElem) (m m' : Hashmap) (cells : ℕ → Cells) (old : Cost → Ptr) (d : Cost)
        (new_elem node : Ptr)
        → ((c : Cost) → lookup h.items m.size cells (name_key (cost_name c)) ≡ old c)
        → (p : IsPut h m cells (name_key (cost_name d)) (address d) new_elem node m' g) → (c : Cost)
        → lookup g.items m'.size p.new_cells (name_key (cost_name c))
          ≡ (if key_value d == key_value c then address d else old c)
    put-values h g m m' cells old d new_elem node found p c =
        elim (Bool-cases (key_value d == key_value c)) [
          | inl same ↦
              let keys =
                name_key-cost_name d ∙ ap pos (==→eq _ _ same) ∙ sym (name_key-cost_name c) in
              rw same (subst (λ k. lookup g.items m'.size p.new_cells k ≡ address d) keys p.here)
          | inr other ↦ rw other (
              p.others (name_key (cost_name c))
                (λ e. different (sym (name_key-cost_name c) ∙ e ∙ name_key-cost_name d) other)
              ∙ found c)
        ]

    put_time-Filled :
        (h : Heap HashmapElem) (m : Hashmap) (old : Cost → Ptr) (d : Cost) (cs : List Cost)
        → Filled old m h
        → Unused h (d ∷ cs)
        → Ends (put_time address fresh m d h) (λ m' g.
          Filled (λ c. if key_value d == key_value c then address d else old c) m' g × Unused g cs)
    unfolding put_time
    put_time-Filled h m old d cs (cells, is, size, (apart, held), found) u =
        Ends-mono _
          (IsPut h m cells (name_key (cost_name d)) (address d) (fresh d).new_elem (fresh d).node) _
          (hmap_put_abs_lem h m cells is (name_key (cost_name d)) (key_value d % 1000)
            (cost_bucket m d size) (address d) (fresh d).new_elem (fresh d).old_elem u.0.0 u.0.1
            (fresh d).node (fresh d).old_node u.1.0 u.1.1)
          λ m' g p. (
            (
              p.new_cells,
              p.map,
              p.size ∙ size,
              p.apart apart held,
              put-values h g m m' cells old d (fresh d).new_elem (fresh d).node found p,
            ),
            Unused-kept h g d cs p.unused_items p.unused_nodes u.2 u.3,
          )

    put_times-Filled :
        (cs : List Cost) (h : Heap HashmapElem) (m : Hashmap) (old : Cost → Ptr)
        → Filled old m h
        → Unused h cs
        → Ends (put_times address fresh cs m h) (Filled (λ c. value_after cs (old c) c))
    unfolding put_times
    put_times-Filled [] h m old f u = f
    put_times-Filled (d ∷ cs) h m old f u =
        Ends-and_then (put_time address fresh m d h) (put_times address fresh cs)
          (λ m' g.
            Filled (λ c. if key_value d == key_value c then address d else old c) m' g
            × Unused g cs)
          (Filled (λ c. value_after (d ∷ cs) (old c) c)) (put_time-Filled h m old d cs f u)
          λ m' g (f', u'). put_times-Filled cs g m' _ f' u'

    value_after-costs : (c : Cost) → value_after costs null c ≡ address c
    value_after-costs recvfrom = refl
    value_after-costs raw_socket = refl
    value_after-costs set_promisc = refl
    value_after-costs intf_name_to_sock_idx = refl
    value_after-costs get_dst_sock_idx = refl
    value_after-costs send_packet = refl
    value_after-costs poll = refl
    value_after-costs flush_buffer = refl

    no_cells-apart :
        (h : Heap HashmapElem) → Separate (λ (j : ℕ). no_cells j) × Held h (λ (j : ℕ). no_cells j)
    no_cells-apart h = (
      record { nodes = λ j k a ne i. refl; items = λ j k a ne i. refl; distinct = λ j. tt },
      λ j a i. cc,
    )

    -- a map of 1000 buckets that holds under each name the address of the cost
    init_func_times-Filled :
        (call : Ptr → Ptr → Ptr → HCmd ℤ) (ints : Ptr → Option ℤ) (h : Heap HashmapElem)
        → Unused h costs
        → Ends (init_func_times address fresh call ints h) (Filled address)
    unfolding init_func_times
    init_func_times-Filled call ints h u =
        let (is, size, empty) = hmap_init_lem h call ints 1000 in
        Ends-mono _ (Filled (λ c. value_after costs null c)) _
          (put_times-Filled costs h (hmap_init call ints 1000) (λ c. null)
            (no_cells, is, size, no_cells-apart h, λ c. empty (name_key (cost_name c))) u)
          λ m g (cells, is', size', apart, found).
            (cells, is', size', apart, λ c. found c ∙ value_after-costs c)

    -- `update_stub` charges each function that has a cost what stands at the address of that cost
    abbrev pub Charges : Hashmap → Heap HashmapElem → Type 0
    Charges m g =
        (times : Ptr → ℤ) (c : Cost) (curr : ℤ) (reply : List ℕ)
        → update_stub m times curr (some (cost_name c)) reply g
          ≡ ok (update_stub_after (some (times (address c))) curr reply) g

    -- With memory for its sixteen allocations, `init_func_times` ends, and on its table `update_stub`
    -- charges each function that has a cost what stands at the address of that cost, whichever of
    -- the eight it is; the table stays as it is.
    pub init_func_times-Charges :
        (call : Ptr → Ptr → Ptr → HCmd ℤ) (ints : Ptr → Option ℤ) (h : Heap HashmapElem)
        → Unused h costs
        → ((c : Cost) → address c ≢ null)
        → Ends (init_func_times address fresh call ints h) Charges
    init_func_times-Charges call ints h u ne =
        Ends-mono _ (Filled address) _ (init_func_times-Filled call ints h u)
          λ m g (cells, is, size, apart, found) times c curr reply.
            update_stub_lem g m cells is (cost_name c) (key_value c % 1000) (cost_bucket m c size)
              times curr reply
            ∙ ap (λ v. ok (update_stub_after v curr reply) g)
                (ap (cost_at times) (found c) ∙ cost_at-live times (address c) (ne c))

    -- The table is a map that holds the addresses of the costs, and `hmap_destroy` frees its chains.
    abbrev pub Destroyed : Hashmap → Heap HashmapElem → Type 0
    Destroyed m g =
        (cells : ℕ → Cells) × IsMap g m cells
        × ((c : Cost) → lookup g.items m.size cells (name_key (cost_name c)) ≡ address c)
        × Ends (hmap_destroy m g) (λ _ g'. FreesAll g g' cells m.size)

    -- With memory for its sixteen allocations, `init_func_times` ends, and `hmap_destroy` on its table
    -- ends without a fault: it frees each node and each element that the table has, and touches nothing
    -- else.
    pub init_func_times-Destroyed :
        (call : Ptr → Ptr → Ptr → HCmd ℤ) (ints : Ptr → Option ℤ) (h : Heap HashmapElem)
        → Unused h costs
        → Ends (init_func_times address fresh call ints h) Destroyed
    init_func_times-Destroyed call ints h u =
        Ends-mono _ (Filled address) _ (init_func_times-Filled call ints h u)
          λ m g (cells, is, size, (apart, held), found).
            (cells, is, found, hmap_destroy_lem g m cells is apart)

    -- both at once
    pub init_func_times-Serves :
        (call : Ptr → Ptr → Ptr → HCmd ℤ) (ints : Ptr → Option ℤ) (h : Heap HashmapElem)
        → Unused h costs
        → ((c : Cost) → address c ≢ null)
        → Ends (init_func_times address fresh call ints h) (λ m g. Charges m g × Destroyed m g)
    init_func_times-Serves call ints h u ne =
        Ends-both _ Charges Destroyed (init_func_times-Charges call ints h u ne)
          (init_func_times-Destroyed call ints h u)
