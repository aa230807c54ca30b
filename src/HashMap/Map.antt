-- ===== src/HashMap/Map.antt =====
-- The table as a map from keys to values, and `hmap_get_abs`.
use vt_mechanisms.Prelude.{
  ℕ, zero, suc, ◌+◌, ◌%◌, ◌<◌, ◌≡◌, refl, sym, subst, List, [], ◌∷◌, Option, none, some, ℤ, pos,
  negsuc, arith, length, get_elem?,
}
use vt_mechanisms.Heap.{Ptr, null, Heap, ok}
use vt_mechanisms.LinkedList.{Llist}
use vt_mechanisms.LinkedList.Linked.{Cells, IsList}
use vt_mechanisms.HashMap.{HashmapElem, Hashmap, bucket_index, bucket, get_loop, hmap_get_abs}
use vt_mechanisms.HashMap.Chain.{Items, find, value_of, Live, get_loop-find}
use vt_mechanisms.HashMap.Update.{InBucket}

-- The chain of the bucket `i` is `cells i`: its nodes are linked, and each of its items is a live
-- element whose key belongs to that bucket.
pub record IsMap (h : Heap HashmapElem) (m : Hashmap) (cells : ℕ → Cells) : Type 0 where
  pub full : length m.head ≡ m.size
  pub list :
      (i : ℕ) (l : Llist HashmapElem) → get_elem? m.head i ≡ some l → IsList h.nodes l (cells i)
  pub live : (i : ℕ) → Live (InBucket m.size i) h.items (cells i)

-- the value under a key in the chain of its bucket, where it has one
abbrev pub in_chain : Items → (ℕ → Cells) → ℤ → Option ℕ → Ptr
in_chain f cells key none = null
in_chain f cells key (some i) = value_of (find f key (cells i))

-- the value under a key, NULL without one
abbrev pub lookup : Items → ℕ → (ℕ → Cells) → ℤ → Ptr
lookup f n cells key = in_chain f cells key (bucket_index key n)

bucket_index-lt : (key : ℤ) (n i : ℕ) → bucket_index key n ≡ some i → i < n
unfolding bucket_index
bucket_index-lt key zero i e = cc
bucket_index-lt (pos k) (suc n) i e =
    let r : k % suc n ≡ i = cc in let b : k % suc n < suc n = omega arith in omega arith
bucket_index-lt (negsuc k) (suc n) i e = ground arith

get_elem?-lt :
    {A : Type 0} (xs : List A) (i : ℕ) → i < length xs → (x : A) × (get_elem? xs i ≡ some x)
get_elem?-lt [] i lt = absurd (omega arith)
get_elem?-lt (x ∷ xs) zero lt = (x, refl)
get_elem?-lt (x ∷ xs) (suc i) lt = get_elem?-lt xs i (omega arith)

module _ (h : Heap HashmapElem) (m : Hashmap) (cells : ℕ → Cells) (is : IsMap h m cells) (key : ℤ)
    (i : ℕ) (at : bucket_index key m.size ≡ some i) where
  pub chain_of : (l : Llist HashmapElem) × (get_elem? m.head i ≡ some l)
  chain_of = get_elem?-lt m.head i (rw is.full (bucket_index-lt key m.size i at))

  pub bucket-ok : (g : Heap HashmapElem) → bucket m key g ≡ ok (i, chain_of.0) g
  unfolding bucket
  bucket-ok g = rw (at, bucket) (rw (chain_of.1, bucket) refl)

  -- `hmap_get_abs` returns what the map holds under the key, and NULL without it; the heap stays
  -- as it is.
  pub hmap_get_abs_lem : hmap_get_abs m key h ≡ ok (lookup h.items m.size cells key) h
  unfolding hmap_get_abs
  hmap_get_abs_lem =
      let l = chain_of.0 in
      let li = is.list i l chain_of.1 in
      let run =
        subst (λ p. get_loop (l.size + 1) key p h ≡ ok (value_of (find h.items key (cells i))) h)
          (sym li.head)
          (get_loop-find (InBucket m.size i) h key (l.size + 1) null (cells i) li.linked (is.live i)
            (omega (arith, li.size))) in
      rw (bucket-ok h, at) run
