-- ===== src/LinkedList/Walk.antt =====
-- The loops of linkedlist.c that only read: `llist_get` and `llist_get_pos`, and the search with
-- which `llist_remove_at` begins.
use vt_mechanisms.Prelude.{
  ℕ, zero, suc, ◌+◌, ◌<◌, ◌≡◌, refl, [], ◌∷◌, arith, length, ℤ, pos, negsuc, ◌==ℤ◌, if◌then◌else◌,
}
use vt_mechanisms.Heap.{Ptr, null, Heap, Cmd, ok}
use vt_mechanisms.Heap.Access.{load-ok}
use vt_mechanisms.LinkedList.Linked.{Cells, first, Linked, IsList}
use vt_mechanisms.LinkedList.{
  Llist, llist_get, get_loop, llist_get_pos, get_pos_loop, elem_not_found,
}

-- the item at a position, NULL behind the end
abbrev pub item_at : Cells → ℕ → Ptr
item_at [] j = null
item_at ((p, v) ∷ xs) zero = v
item_at ((p, v) ∷ xs) (suc j) = item_at xs j

-- C positions may be negative: nothing stands there
abbrev pub item_at_int : Cells → ℤ → Ptr
item_at_int xs (pos j) = item_at xs j
item_at_int xs (negsuc j) = null

-- the first position from `i` on whose item the checker calls equal, by its results `r`
abbrev pub position : (Ptr → ℤ) → Cells → ℕ → ℤ
position r [] i = elem_not_found
position r ((p, v) ∷ xs) i = if r v ==ℤ pos 0 then pos i else position r xs (i + 1)

-- the checker compares each item of the list with `item` without changing the heap
abbrev pub Compares :
    {V : Type 0} → Heap V → (Ptr → Ptr → Cmd V ℤ) → (Ptr → ℤ) → Ptr → Cells → Type 0
Compares h same r item [] = Unit
Compares h same r item ((p, v) ∷ xs) = (same v item h ≡ ok (r v) h) × Compares h same r item xs

module _ {V : Type 0} (h : Heap V) where
  get_loop-item_at :
      (k i j index before : ℕ) (xs : Cells)
      → Linked h.nodes before xs null
      → length xs < k
      → index ≡ i + j
      → get_loop k (pos index) i (first xs null) h ≡ ok (item_at xs j) h
  unfolding get_loop
  get_loop-item_at zero i j index before xs l fuel e = absurd (omega arith)
  get_loop-item_at (suc k) i j index before [] l fuel e = refl
  get_loop-item_at (suc k) i zero index before ((p, v) ∷ xs) l fuel e =
      ground (arith, load-ok h p _ l.0 l.1)
  get_loop-item_at (suc k) i (suc j) index before ((p, v) ∷ xs) l fuel e =
      ground (arith, load-ok h p _ l.0 l.1, get_loop-item_at k (i + 1) j index p xs l.3)

  get_loop-negative :
      (k i j before : ℕ) (xs : Cells)
      → Linked h.nodes before xs null
      → length xs < k
      → get_loop k (negsuc j) i (first xs null) h ≡ ok null h
  unfolding get_loop
  get_loop-negative zero i j before xs l fuel = absurd (omega arith)
  get_loop-negative (suc k) i j before [] l fuel = refl
  get_loop-negative (suc k) i j before ((p, v) ∷ xs) l fuel =
      ground (arith, load-ok h p _ l.0 l.1, get_loop-negative k (i + 1) j p xs l.3)

  get_pos_loop-position :
      (same : Ptr → Ptr → Cmd V ℤ) (r : Ptr → ℤ) (k item i before : ℕ) (xs : Cells)
      → Linked h.nodes before xs null
      → Compares h same r item xs
      → length xs < k
      → get_pos_loop same k item i (first xs null) h ≡ ok (position r xs i) h
  unfolding get_pos_loop
  get_pos_loop-position same r zero item i before xs l c fuel = absurd (omega arith)
  get_pos_loop-position same r (suc k) item i before [] l c fuel = refl
  get_pos_loop-position same r (suc k) item i before ((p, v) ∷ xs) l c fuel =
      ground
        (arith, load-ok h p _ l.0 l.1, get_pos_loop-position same r k item (i + 1) p xs l.3 c.1)

  module _ (l : Llist V) (xs : Cells) (is : IsList h.nodes l xs) where
    -- `llist_get` returns the item at the position, or NULL for every position outside the list,
    -- a negative one included; the heap stays as it is
    pub llist_get_lem : (index : ℤ) → llist_get l index h ≡ ok (item_at_int xs index) h
    unfolding llist_get
    llist_get_lem (pos j) = rw (is.head) (
        get_loop-item_at (l.size + 1) 0 j j null xs is.linked (omega (arith, is.size))
          (omega arith))
    llist_get_lem (negsuc j) =
        rw (is.head) (get_loop-negative (l.size + 1) 0 j null xs is.linked (omega (arith, is.size)))

    -- `llist_get_pos` returns the first position whose item the list's checker calls equal, or
    -- ELEM_NOT_FOUND; the heap stays as it is
    pub llist_get_pos_lem :
        (r : Ptr → ℤ) (item : Ptr)
        → Compares h l.equals r item xs
        → llist_get_pos l item h ≡ ok (position r xs 0) h
    unfolding llist_get_pos
    llist_get_pos_lem r item c = rw (is.head) (
        get_pos_loop-position l.equals r (l.size + 1) item 0 null xs is.linked c
          (omega (arith, is.size)))
