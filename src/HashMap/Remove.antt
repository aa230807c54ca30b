-- ===== src/HashMap/Remove.antt =====
-- `hmap_remove_abs` of src/routing/utils/hashmap.c on a table that is a map.
use vt_mechanisms.Prelude.{
  ℕ, zero, suc, ◌+◌, ◌%◌, ◌<◌, ◌≡◌, refl, sym, ◌∙◌, ap, subst, ◌≢◌, false, Bool-cases, inl, inr,
  ◌==◌, [], ◌∷◌, Option, none, some, ℤ, pos, ◌==ℤ◌, arith, length,
}
use vt_mechanisms.Heap.{Ptr, null, Heap, Run, ok, fault, out_of_fuel, write}
use vt_mechanisms.Heap.Access.{load-ok, load_item-ok, store_item-ok}
use vt_mechanisms.LinkedList.Linked.{Nodes, Cells, elem, first, Linked}
use vt_mechanisms.Heap.{LlistElem}
use vt_mechanisms.HashMap.{HashmapElem, Hashmap, bucket_index, remove_loop, hmap_remove_abs}
use vt_mechanisms.HashMap.Chain.{Items, find, Live, find-here, find-next}
use vt_mechanisms.HashMap.Update.{InBucket}
use vt_mechanisms.HashMap.Map.{IsMap, chain_of, bucket-ok}

-- the heap with the element that was found under the key 0
abbrev pub renamed : Heap HashmapElem → Option (Ptr × HashmapElem) → Heap HashmapElem
renamed h none = h
renamed h (some (v, d)) = record h { items = write h.items v (some (record d { key_val = pos 0 })) }

module _ (P : HashmapElem → Type 0) (h : Heap HashmapElem) (key : ℤ) where
  remove_loop-find :
      (k : ℕ) (before : Ptr) (xs : Cells)
      → Linked h.nodes before xs null
      → Live P h.items xs
      → length xs < k
      → remove_loop k key (first xs null) h ≡ ok tt (renamed h (find h.items key xs))
  unfolding remove_loop
  remove_loop-find zero before xs l live fuel = absurd (omega arith)
  remove_loop-find (suc k) before [] l live fuel = refl
  remove_loop-find (suc k) before ((p, v) ∷ xs) l ((e, ev, pe), nv, live) fuel =
      let node_p : (p == null) ≡ false = ground (arith, l.1) in
      elim (Bool-cases (e.key_val ==ℤ key)) [
        | inl same ↦ rw (
          node_p,
          load-ok h p _ l.0 l.1,
          load_item-ok h v ev nv,
          same,
          find-here h.items key p v xs e ev same,
          store_item-ok h v ev nv (record e { key_val = pos 0 }),
        )
        | inr other ↦
            rw
              (
                node_p,
                load-ok h p _ l.0 l.1,
                load_item-ok h v ev nv,
                other,
                find-next h.items key p v xs e ev other,
              )
              (remove_loop-find k p xs l.3 live (omega arith))
      ]

-- A search finds an item of the chain, so whatever holds of the chain's items holds of it.
found_item :
    (P Q : HashmapElem → Type 0) (f g : Items) (key : ℤ) (xs : Cells) (v : Ptr) (d : HashmapElem)
    → Live P f xs
    → Live Q g xs
    → find f key xs ≡ some (v, d)
    → (e : HashmapElem) × (g v ≡ some e) × Q e
found_item P Q f g key [] v d live live' found = cc
found_item P Q f g key ((p, w) ∷ xs) v d ((c, at, pc), nw, live) (item, nw', live') found =
    elim (Bool-cases (c.key_val ==ℤ key)) [
      | inl same ↦
          let pair = sym (find-here f key p w xs c at same) ∙ found in
          let wv : w ≡ v = ground (arith, pair) in rw wv at item
      | inr other ↦
          found_item P Q f g key xs v d live live' (sym (find-next f key p w xs c at other) ∙ found)
    ]

heap_of : {A : Type 0} → Heap HashmapElem → Run HashmapElem A → Heap HashmapElem
heap_of h (ok a g) = g
heap_of h fault = h
heap_of h out_of_fuel = h

zero_bucket : (n i : ℕ) → bucket_index (pos 0) n ≡ some i → i ≡ 0
unfolding bucket_index
zero_bucket zero i e = cc
zero_bucket (suc n) i e =
    let r : 0 % suc n ≡ i = cc in let z : 0 % suc n ≡ 0 = omega arith in sym r ∙ z

next_of : Option LlistElem → Ptr
next_of none = null
next_of (some e) = e.next

item_of : Option LlistElem → Ptr
item_of none = null
item_of (some e) = e.item

-- The nodes say which cells a chain has.
Linked-unique :
    (f : Nodes) (before before' : Ptr) (xs ys : Cells)
    → Linked f before xs null
    → Linked f before' ys null
    → first xs null ≡ first ys null
    → xs ≡ ys
unfolding next_of item_of
Linked-unique f before before' [] [] l l' e = refl
Linked-unique f before before' [] ((q, w) ∷ ys) l l' e = absurd (l'.1 (sym e))
Linked-unique f before before' ((p, v) ∷ xs) [] l l' e = absurd (l.1 e)
Linked-unique f before before' ((p, v) ∷ xs) ((q, w) ∷ ys) l l' e =
    let same : some (elem v (first xs null) before) ≡ some (elem w (first ys null) before') =
      sym l.0 ∙ ap f e ∙ l'.0 in
    let rest = Linked-unique f p q xs ys l.3 l'.3 (ap next_of same) in
    let vw : v ≡ w = ap item_of same in rw (e, vw, rest) refl

module _ (h : Heap HashmapElem) (m : Hashmap) (cells : ℕ → Cells) (is : IsMap h m cells) (key : ℤ)
    (i : ℕ) (at : bucket_index key m.size ≡ some i) where
  -- On a table that is a map `hmap_remove_abs` ends. It changes nothing where the key is missing;
  -- else it gives the first element with the key the key 0, and the element stays in its chain.
  pub hmap_remove_abs_lem : hmap_remove_abs m key h ≡ ok tt (renamed h (find h.items key (cells i)))
  unfolding hmap_remove_abs
  hmap_remove_abs_lem =
      let l = (chain_of h m cells is key i at).0 in
      let li = is.list i l (chain_of h m cells is key i at).1 in
      let walk =
        subst
          (λ p. remove_loop (l.size + 1) key p h ≡ ok tt (renamed h (find h.items key (cells i))))
          (sym li.head)
          (remove_loop-find (InBucket m.size i) h key (l.size + 1) null (cells i) li.linked
            (is.live i) (omega (arith, li.size))) in
      rw (bucket-ok h m cells is key i at h) walk

  -- Where a key of another bucket than 0 is removed, the table is no map any more, whatever cells one
  -- takes for its chains: the element still is in its chain, which is the wrong one for its new key.
  pub hmap_remove_abs-breaks :
      (v : Ptr) (d : HashmapElem) (g : Heap HashmapElem)
      → i ≢ 0
      → find h.items key (cells i) ≡ some (v, d)
      → hmap_remove_abs m key h ≡ ok tt g
      → (cells' : ℕ → Cells) → ¬ IsMap g m cells'
  unfolding heap_of
  hmap_remove_abs-breaks v d g other found run cells' is' =
      let same : ok tt (renamed h (find h.items key (cells i))) ≡ ok tt g =
        sym hmap_remove_abs_lem ∙ run in
      let ended : renamed h (some (v, d)) ≡ g = ap (renamed h) (sym found) ∙ ap (heap_of h) same in
      let d' : HashmapElem = record d { key_val = pos 0 } in
      let renamed_at : (renamed h (some (v, d))).items v ≡ some d' = ground arith in
      let now : g.items v ≡ some d' = subst (λ x. x.items v ≡ some d') ended renamed_at in
      let at_i = (chain_of h m cells is key i at).1 in
      let l = (chain_of h m cells is key i at).0 in
      let old = is.list i l at_i in
      let new = is'.list i l at_i in
      let nodes : g.nodes ≡ h.nodes = subst (λ x. x.nodes ≡ h.nodes) ended refl in
      let chain : cells' i ≡ cells i =
        Linked-unique h.nodes null null (cells' i) (cells i)
          (subst (λ f. Linked f null (cells' i) null) nodes new.linked) old.linked
          (sym new.head ∙ old.head) in
      let live' = subst (λ xs. Live (InBucket m.size i) g.items xs) chain (is'.live i) in
      let (e, ge, in_i) =
        found_item (InBucket m.size i) (InBucket m.size i) h.items g.items key (cells i) v d
          (is.live i) live' found in
      let ed : e ≡ d' = cc in other (zero_bucket m.size i (subst (InBucket m.size i) ed in_i))
