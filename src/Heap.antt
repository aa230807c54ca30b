-- ===== src/Heap.antt =====
-- The C heap as src/routing/utils/linkedlist.c and src/routing/utils/hashmap.c use it. Addresses
-- are numbers and 0 is NULL. `nodes` holds the live `llist_elem` structures, `items` the live
-- objects of type `V` that list items point to; `none` is an address that is not allocated.
pub mod Access
use vt_mechanisms.Prelude.{ℕ, Option, none, some, ◌==◌, if◌then◌else◌}

abbrev pub Ptr : Type 0
Ptr = ℕ

abbrev pub null : Ptr
null = 0

-- struct llist_elem_struct
pub record LlistElem : Type 0 where
  pub item : Ptr
  pub next : Ptr
  pub prev : Ptr

pub record Heap (V : Type 0) : Type 0 where
  pub nodes : Ptr → Option LlistElem
  pub items : Ptr → Option V

-- A run ends normally, in undefined behaviour, or with its fuel spent.
pub data Run (V A : Type 0) : Type 0 where
  ok : A → Heap V → Run V A
  fault : Run V A
  out_of_fuel : Run V A

abbrev pub Cmd : Type 0 → Type 0 → Type 0
Cmd V A = Heap V → Run V A

abbrev pub write {ℓ} : {A : Type ℓ} → (Ptr → Option A) → Ptr → Option A → Ptr → Option A
write f p c q = if p == q then c else f q

module _ {V : Type 0} where
  infixl 5 ◌>>=◌ ◌>>◌
  abbrev pub and_then : {A B : Type 0} → Run V A → (A → Cmd V B) → Run V B
  and_then (ok a h) k = k a h
  and_then fault k = fault
  and_then out_of_fuel k = out_of_fuel

  abbrev pub pure : {A : Type 0} → A → Cmd V A
  pure a h = ok a h

  abbrev pub ◌>>=◌ : {A B : Type 0} → Cmd V A → (A → Cmd V B) → Cmd V B
  ◌>>=◌ m k h = and_then (m h) k

  abbrev pub ◌>>◌ : {B : Type 0} → Cmd V (Unit {0}) → Cmd V B → Cmd V B
  m >> k = m >>= λ _. k

  lift : {A : Type 0} → Option A → Heap V → Run V A
  lift none h = fault
  lift (some a) h = ok a h

  -- `p->item`, `p->next` and `p->prev` are read by one load. NULL is never allocated.
  unfoldable pub load : Ptr → Cmd V LlistElem
  unfolding lift
  load p h = if p == null then fault else lift (h.nodes p) h

  -- One field of a live node is assigned: `p->next = q` and so on.
  assign : (LlistElem → LlistElem) → Ptr → Cmd V (Unit {0})
  unfolding load
  assign f p = load p >>= λ n h. ok tt (record h { nodes = write h.nodes p (some (f n)) })

  unfoldable pub set_item : Ptr → Ptr → Cmd V (Unit {0})
  unfolding assign
  set_item p v = assign (λ n. record n { item = v }) p

  unfoldable pub set_next : Ptr → Ptr → Cmd V (Unit {0})
  unfolding assign
  set_next p q = assign (λ n. record n { next = q }) p

  unfoldable pub set_prev : Ptr → Ptr → Cmd V (Unit {0})
  unfolding assign
  set_prev p q = assign (λ n. record n { prev = q }) p

  -- A successful `malloc` of a node: `junk` is what the memory held before.
  unfoldable pub malloc_node : Ptr → LlistElem → Cmd V (Unit {0})
  malloc_node p junk h = ok tt (record h { nodes = write h.nodes p (some junk) })

  -- `free` of a node, and of an item; freeing NULL does nothing.
  unfoldable pub free_node : Ptr → Cmd V (Unit {0})
  unfolding load
  free_node p = load p >>= λ _ h. ok tt (record h { nodes = write h.nodes p none })

  unfoldable pub load_item : Ptr → Cmd V V
  unfolding lift
  load_item p h = if p == null then fault else lift (h.items p) h

  unfoldable pub store_item : Ptr → V → Cmd V (Unit {0})
  unfolding load_item
  store_item p v = load_item p >>= λ _ h. ok tt (record h { items = write h.items p (some v) })

  unfoldable pub malloc_item : Ptr → V → Cmd V (Unit {0})
  malloc_item p v h = ok tt (record h { items = write h.items p (some v) })

  unfoldable pub free_item : Ptr → Cmd V (Unit {0})
  unfolding load_item
  free_item p =
      if p == null
      then pure tt
      else load_item p >>= λ _ h. ok tt (record h { items = write h.items p none })
