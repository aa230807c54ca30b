-- ===== src/HashMap/Init.antt =====
-- `hmap_init` of src/routing/utils/hashmap.c, as a map.
use vt_mechanisms.Prelude.{
  ℕ, zero, suc, ◌≡◌, refl, ◌==◌, if◌then◌else◌, [], Option, none, some, ℤ, get_elem?, replicate,
  length-replicate,
}
use vt_mechanisms.Heap.{Ptr, null, Heap}
use vt_mechanisms.LinkedList.{llist_init, llist_set_equality_checker}
use vt_mechanisms.LinkedList.Linked.{Cells, IsList}
use vt_mechanisms.HashMap.{
  HashmapElem, HCmd, hmap_elem_comparer, hmap_init, bucket_index, default_map_size,
}
use vt_mechanisms.HashMap.Map.{IsMap, in_chain, lookup}

abbrev pub no_cells : ℕ → Cells
no_cells i = []

get_elem?-replicate :
    {A : Type 0} (n : ℕ) (a b : A) (i : ℕ) → get_elem? (replicate n a) i ≡ some b → a ≡ b
get_elem?-replicate zero a b i e = cc
get_elem?-replicate (suc n) a b zero e = cc
get_elem?-replicate (suc n) a b (suc i) e = get_elem?-replicate n a b i e

module _ (h : Heap HashmapElem) (call : Ptr → Ptr → Ptr → HCmd ℤ) (ints : Ptr → Option ℤ)
    (m_size : ℕ) where
  -- `hmap_init` makes a table of as many buckets as asked for, or of the default number where that
  -- is 0, which holds no key.
  pub hmap_init_lem :
      IsMap h (hmap_init call ints m_size) no_cells
      × ((hmap_init call ints m_size).size ≡ (if m_size == 0 then default_map_size else m_size))
      × ((key : ℤ) → lookup h.items (hmap_init call ints m_size).size no_cells key ≡ null)
  unfolding hmap_init llist_init llist_set_equality_checker
  hmap_init_lem = (
    record {
      full = length-replicate _ _;
      list = λ i l e.
          (let same = get_elem?-replicate (hmap_init call ints m_size).size _ l i e in
            rw same at empty_list);
      live = λ i. tt;
    },
    refl,
    λ key. holds_none key (bucket_index key (hmap_init call ints m_size).size),
  )
    where
      empty_list :
          IsList h.nodes (llist_set_equality_checker llist_init (hmap_elem_comparer call)) []
      empty_list = record { size = refl; head = refl; tail = refl; linked = tt }

      holds_none : (key : ℤ) (o : Option ℕ) → in_chain h.items no_cells key o ≡ null
      holds_none key none = refl
      holds_none key (some i) = refl
