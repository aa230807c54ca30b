-- ===== src/HashMap/Put.antt =====
-- `hmap_put_abs` of src/routing/utils/hashmap.c on a table that is a map.
use vt_mechanisms.Prelude.{
  ℕ, ◌+◌, ◌≡◌, refl, sym, ◌∙◌, ap, subst, ◌≢◌, Bool, true, false, Bool-cases, inl, inr, ◌==◌,
  if◌then◌else◌, [], ◌∷◌, ◌++◌, none, some, Option-cases, ℤ, arith, ==→eq, length-set, get_elem?,
  set,
}
use vt_mechanisms.Heap.{Ptr, null, LlistElem, Heap, pure, ◌>>=◌, and_then, write, malloc_item}
use vt_mechanisms.Heap.Access.{Ends, Ends-and_then, store_item-ok}
use vt_mechanisms.LinkedList.{Llist, llist_append}
use vt_mechanisms.LinkedList.Linked
use vt_mechanisms.LinkedList.Linked.{Cells, has, Linked, frame, IsList}
use vt_mechanisms.LinkedList.Append.{IsAppended, llist_append_lem}
use vt_mechanisms.HashMap.{HashmapElem, Hashmap, HCmd, bucket_index, put_loop, hmap_put_abs}
use vt_mechanisms.HashMap.Chain.{find, value_of, Live, put_found, put_loop-find, find-Live}
use vt_mechanisms.HashMap.Update
use vt_mechanisms.HashMap.Update.{InBucket, Writes}
use vt_mechanisms.HashMap.Apart.{
  Live-Away, find-elsewhere, in_chain-same, owner, get_elem?-set, get_elem?-set_other,
}
use vt_mechanisms.HashMap.Separate.{
  Separate, Held, with_cell, with_cell-Separate, has-with_cell, Away-holds,
}
use vt_mechanisms.LinkedList.Linked.{has-append}
use vt_mechanisms.HashMap.Map.{IsMap, in_chain, lookup, chain_of, bucket-ok}

-- The outcome of putting the value under the key.
pub record IsPut (h : Heap HashmapElem) (m : Hashmap) (cells : ℕ → Cells) (key : ℤ) (value : Ptr)
    (new_elem node : Ptr) (m' : Hashmap) (g : Heap HashmapElem) : Type 0 where
  pub new_cells : ℕ → Cells
  pub map : IsMap g m' new_cells
  pub size : m'.size ≡ m.size
  pub here : lookup g.items m'.size new_cells key ≡ value
  pub others :
      (key' : ℤ)
      → key' ≢ key
      → lookup g.items m'.size new_cells key' ≡ lookup h.items m.size cells key'
  pub unused_items : (a : Ptr) → a ≢ new_elem → h.items a ≡ none → g.items a ≡ none
  pub unused_nodes : (a : Ptr) → a ≢ node → h.nodes a ≡ none → g.nodes a ≡ none
  pub apart : Separate cells → Held h cells → Separate new_cells × Held g new_cells

module _ (h : Heap HashmapElem) (m : Hashmap) (cells : ℕ → Cells) (is : IsMap h m cells) (key : ℤ)
    (i : ℕ) (at : bucket_index key m.size ≡ some i) (value : Ptr) (new_elem : Ptr)
    (old_elem : HashmapElem) (ne : new_elem ≢ null) (unused : h.items new_elem ≡ none) where
  abbrev l : Llist HashmapElem
  l = (chain_of h m cells is key i at).0

  abbrev entry : HashmapElem
  entry = record old_elem { key_val = key; value = value; equals = null }

  -- the heap with the new element
  abbrev stored : Heap HashmapElem
  stored = record h { items = write (write h.items new_elem (some old_elem)) new_elem (some entry) }

  stored-Writes : Writes h.items stored.items new_elem entry
  stored-Writes = record { here = ground arith; same = λ a apart. ground arith; old = λ d e. cc }

  -- the part behind the walk
  abbrev rest : (node : Ptr) → LlistElem → Bool → HCmd Hashmap
  rest node old_node found = if found then pure m else (do
    (_, list') ← llist_append node old_node l new_elem
    pure (record m { head = set m.head i list' }))

  put_run :
      (node : Ptr) (old_node : LlistElem)
      → hmap_put_abs new_elem old_elem node old_node m key value h
        ≡ and_then
            (put_found (InBucket m.size i) stored key value new_elem (find h.items key (cells i)))
            (rest node old_node)
  unfolding hmap_put_abs malloc_item
  put_run node old_node =
      let li = is.list i l (chain_of h m cells is key i at).1 in
      let begun : Heap HashmapElem = record h { items = write h.items new_elem (some old_elem) } in
      let begun_at : begun.items new_elem ≡ some old_elem = ground arith in
      let away = Live-Away (InBucket m.size i) h.items new_elem (cells i) (is.live i) unused in
      let live =
        Update.Writes-Live h.items stored.items new_elem entry stored-Writes m.size i (cells i)
          (is.live i) in
      let walk =
        subst
          (λ p.
            put_loop (l.size + 1) key value new_elem p stored
            ≡ put_found (InBucket m.size i) stored key value new_elem
                (find stored.items key (cells i)))
          (sym li.head)
          (put_loop-find (InBucket m.size i) stored key value new_elem entry stored-Writes.here ne
            (l.size + 1) null (cells i) li.linked live away (omega (arith, li.size))) in
      let searched =
        find-elsewhere h.items stored.items key new_elem (cells i) stored-Writes.same away in
      rw (
        bucket-ok h m cells is key i at h,
        store_item-ok begun new_elem begun_at ne entry,
        walk,
        searched,
      )

  -- the heap after an assignment to the element that was found
  abbrev assigned : Ptr → HashmapElem → Heap HashmapElem
  assigned v d = record stored {
    items = write (write stored.items v (some (record d { value = value }))) new_elem none;
  }

  assigned-Writes :
      (v : Ptr) (d : HashmapElem)
      → h.items v ≡ some d
      → Writes h.items (assigned v d).items v (record d { value = value })
  assigned-Writes v d live =
      let apart : v ≢ new_elem = λ e. (let gone = rw e at live in cc) in
      record {
        here = ground arith;
        same = λ a other. ground arith;
        old = λ d' e. (let eq : d ≡ d' = cc in ap (λ x. x.key_val) (sym eq));
      }

  assigned-IsPut :
      (node v : Ptr) (d : HashmapElem)
      → find h.items key (cells i) ≡ some (v, d)
      → IsPut h m cells key value new_elem node m (assigned v d)
  assigned-IsPut node v d found =
      let (live, nv, same_key) =
        find-Live (InBucket m.size i) h key (cells i) v d (is.live i) found in
      let e : HashmapElem = record d { value = value } in
      let g = assigned v d in
      let w = assigned-Writes v d live in
      let got : value_of (find g.items d.key_val (cells i)) ≡ value =
        Update.find-written h.items g.items v e w (InBucket m.size i) (cells i) d (is.live i)
          (subst (λ k. find h.items k (cells i) ≡ some (v, d)) (sym same_key) found) in
      record {
        new_cells = cells;
        map = record {
          full = is.full;
          list = is.list;
          live = λ j. Update.Writes-Live h.items g.items v e w m.size j (cells j) (is.live j);
        };
        size = refl;
        here =
            ap (in_chain g.items cells key) at
            ∙ subst (λ k. value_of (find g.items k (cells i)) ≡ value) same_key got;
        others = λ key' other.
            in_chain-same h.items g.items cells cells key' (bucket_index key' m.size) λ j.
              Update.find-Writes h.items g.items v e w (InBucket m.size j) key' (cells j)
                (λ eq. other (eq ∙ same_key)) (is.live j);
        unused_items = λ a apart gone. ground (arith, live);
        unused_nodes = λ a apart gone. gone;
        apart = λ s held. (s, held);
      }

  -- the chains with a cell for the new element
  abbrev grown : Ptr → ℕ → Cells
  grown node = with_cell cells i node new_elem

  module _ (node : Ptr) (nn : node ≢ null) (unused_node : h.nodes node ≡ none)
      (r : ℤ × Llist HashmapElem) (g : Heap HashmapElem)
      (o : IsAppended stored l (cells i) node new_elem r g)
      (missing : find h.items key (cells i) ≡ none) where
    -- a node of another bucket's chain was not written
    other_node :
        (j : ℕ)
        → i ≢ j
        → Linked h.nodes null (cells j) null
        → (a : Ptr) → has a (cells j) ≡ true
        → g.nodes a ≡ h.nodes a
    other_node j apart lj a in_j =
        let li = (is.list i l (chain_of h m cells is key i at).1).linked in
        let (n, e, an, ne_at, ej) =
          owner (InBucket m.size j) h a null (cells j) null lj (is.live j) in_j in
        elim (Bool-cases (has a ((node, new_elem) ∷ cells i))) [
          | inr out ↦ o.same a out
          | inl inside ↦ elim (Bool-cases (node == a)) [
            | inl is_node ↦
                let na = ==→eq node a is_node in let gone = rw na at unused_node in absurd cc
            | inr other ↦
                let (n', e', an', ne_at', ei) =
                  owner (InBucket m.size i) h a null (cells i) null li (is.live i) (ground arith) in
                let nn' : n ≡ n' = cc in
                let ee' : e ≡ e' = cc in let ij : i ≡ j = cc in absurd (apart ij)
          ]
        ]

    grown-IsList :
        (j : ℕ) (l' : Llist HashmapElem)
        → get_elem? (set m.head i r.1) j ≡ some l'
        → IsList g.nodes l' (grown node j)
    grown-IsList j l' e = elim (Bool-cases (j == i)) [
      | inl is_i ↦
          let ji = ==→eq j i is_i in
          let set_i = get_elem?-set m.head i l r.1 (chain_of h m cells is key i at).1 in
          let e' = rw ji at e in let l'r : r.1 ≡ l' = cc in rw is_i (rw l'r at o.list)
      | inr other ↦
          let apart : i ≢ j = λ eq. ground arith in
          let lj = is.list j l' (sym (get_elem?-set_other m.head i j r.1 apart) ∙ e) in
          rw other (record {
            size = lj.size;
            head = lj.head;
            tail = lj.tail;
            linked =
                frame h.nodes g.nodes null (cells j) null lj.linked (other_node j apart lj.linked);
          })
    ]

    grown-Writes : Writes h.items g.items new_elem entry
    grown-Writes = rw o.items stored-Writes

    grown-Live : (j : ℕ) → Live (InBucket m.size j) g.items (grown node j)
    grown-Live j = elim (Bool-cases (j == i)) [
      | inl is_i ↦
          let ji = ==→eq j i is_i in
          rw is_i (
            rw ji (
              Update.Live-append h.items g.items new_elem entry grown-Writes m.size i (cells i) node
                (is.live i) ne at))
      | inr other ↦ rw other (
          Update.Writes-Live h.items g.items new_elem entry grown-Writes m.size j (cells j)
            (is.live j))
    ]

    grown-other :
        (key' : ℤ)
        → key' ≢ key
        → (j : ℕ)
        → value_of (find g.items key' (grown node j)) ≡ value_of (find h.items key' (cells j))
    grown-other key' apart j =
        let w = grown-Writes in
        let kept : (k : ℕ)
            → value_of (find g.items key' (cells k)) ≡ value_of (find h.items key' (cells k)) =
          λ k.
            Update.find-Writes h.items g.items new_elem entry w (InBucket m.size k) key' (cells k)
              apart (is.live k) in
        let live =
          Update.Writes-Live h.items g.items new_elem entry w m.size i (cells i) (is.live i) in
        let longer =
          Update.find-append_other h.items g.items new_elem entry w (InBucket m.size i) key'
            (cells i) node apart live in
        elim (Bool-cases (j == i)) [
          | inl is_i ↦ rw is_i (rw (==→eq j i is_i, longer) (kept i))
          | inr other ↦ rw other (kept j)
        ]

    grown-Separate : Separate cells → Held h cells → Separate (grown node) × Held g (grown node)
    grown-Separate s held =
        let no_node : (j : ℕ) → has node (cells j) ≡ false = λ j.
          elim (Bool-cases (has node (cells j))) [
            | inl inside ↦ absurd (held j node inside unused_node)
            | inr out ↦ out
          ] in
        (
          with_cell-Separate cells i node new_elem s no_node (λ j.
              Away-holds new_elem (cells j)
                (Live-Away (InBucket m.size j) h.items new_elem (cells j) (is.live j) unused)),
          λ j a inside gone.
              let fresh =
                Linked.not-mem_of_none g.nodes a null (cells i ++ (node, new_elem) ∷ []) null
                  o.list.linked gone in
              let out = has-append a (cells i) ((node, new_elem) ∷ []) in
              elim (has-with_cell cells i node new_elem j a inside) [
                | inl old ↦ held j a old (sym (o.same a (ground arith)) ∙ gone)
                | inr (_, is_node) ↦ ground arith
              ],
        )

    grown-IsPut : IsPut h m cells key value new_elem node (record m { head = set m.head i r.1 }) g
    grown-IsPut =
        let own : (i == i) ≡ true = ground arith in
        record {
          new_cells = grown node;
          map = record {
            full = length-set m.head i r.1 ∙ is.full;
            list = grown-IsList;
            live = grown-Live;
          };
          size = refl;
          here =
              ap (in_chain g.items (grown node) key) at
              ∙ rw own (
                  Update.find-appended h.items g.items new_elem entry grown-Writes
                    (InBucket m.size i) (cells i) node (is.live i) missing);
          others = λ key' other.
              in_chain-same h.items g.items cells (grown node) key' (bucket_index key' m.size)
                (grown-other key' other);
          unused_items = λ a apart gone. rw o.items (ground arith);
          unused_nodes = λ a apart gone.
              (let li = (is.list i l (chain_of h m cells is key i at).1).linked in
                let out = Linked.not-mem_of_none h.nodes a null (cells i) null li gone in
                o.same a (ground arith) ∙ gone);
          apart = grown-Separate;
        }

  -- Under a key with a bucket, with two unused addresses, `hmap_put_abs` ends; the table is a map
  -- again that holds the value under the key and under each other key what it held before, and no
  -- other unused address is taken.
  pub hmap_put_abs_lem :
      (node : Ptr) (old_node : LlistElem)
      → node ≢ null
      → h.nodes node ≡ none
      → Ends
          (hmap_put_abs new_elem old_elem node old_node m key value h)
          (IsPut h m cells key value new_elem node)
  hmap_put_abs_lem node old_node nn unused_node =
      let li = is.list i l (chain_of h m cells is key i at).1 in
      rw (put_run node old_node) (elim (Option-cases (find h.items key (cells i))) [
        | inl missing ↦
            rw (missing, put_found)
              (Ends-and_then (llist_append node old_node l new_elem stored) _
                (IsAppended stored l (cells i) node new_elem) _
                (llist_append_lem stored l node old_node new_elem (cells i) li nn unused_node)
                (λ r g o. grown-IsPut node nn unused_node r g o missing))
        | inr ((v, d), found) ↦ rw (found, put_found) (assigned-IsPut node v d found)
      ])
