-- ===== src/Heap/Access.antt =====
-- Each heap operation at a live address, and what it means that a run ends normally.
use vt_mechanisms.Prelude.{◌≡◌, ◌≢◌, none, some, false, arith, ◌==◌}
use vt_mechanisms.Heap.{
  Ptr, null, LlistElem, Heap, Run, ok, fault, out_of_fuel, Cmd, and_then, write, load, set_item,
  set_next, set_prev, free_node, load_item, store_item, free_item,
}

-- The run neither faults nor spends its fuel, and its result and heap satisfy `P`.
abbrev pub Ends : {V A : Type 0} → Run V A → (A → Heap V → Type 0) → Type 0
Ends (ok a h) P = P a h
Ends fault P = ⊥
Ends out_of_fuel P = ⊥

pub Ends-and_then :
    {V A B : Type 0} (r : Run V A) (k : A → Cmd V B) (P : A → Heap V → Type 0)
    (Q : B → Heap V → Type 0)
    → Ends r P
    → ((a : A) (h : Heap V) → P a h → Ends (k a h) Q)
    → Ends (and_then r k) Q
Ends-and_then (ok a h) k P Q p next = next a h p
Ends-and_then fault k P Q p next = p
Ends-and_then out_of_fuel k P Q p next = p

pub Ends-mono :
    {V A : Type 0} (r : Run V A) (P Q : A → Heap V → Type 0)
    → Ends r P
    → ((a : A) (h : Heap V) → P a h → Q a h)
    → Ends r Q
Ends-mono (ok a h) P Q p weaken = weaken a h p
Ends-mono fault P Q p weaken = p
Ends-mono out_of_fuel P Q p weaken = p

pub Ends-both :
    {V A : Type 0} (r : Run V A) (P Q : A → Heap V → Type 0)
    → Ends r P
    → Ends r Q
    → Ends r (λ a h. P a h × Q a h)
Ends-both (ok a h) P Q p q = (p, q)
Ends-both fault P Q p q = p
Ends-both out_of_fuel P Q p q = p

module _ {V : Type 0} (h : Heap V) (p : Ptr) where
  module _ (n : LlistElem) (e : h.nodes p ≡ some n) (ne : p ≢ null) where
    pub load-ok : load p h ≡ ok n h
    unfolding load
    load-ok = ground arith

    pub set_item-ok :
        (v : Ptr)
        → set_item p v h
          ≡ ok tt (record h { nodes = write h.nodes p (some (record n { item = v })) })
    unfolding set_item
    set_item-ok v = rw load-ok

    pub set_next-ok :
        (q : Ptr)
        → set_next p q h
          ≡ ok tt (record h { nodes = write h.nodes p (some (record n { next = q })) })
    unfolding set_next
    set_next-ok q = rw load-ok

    pub set_prev-ok :
        (q : Ptr)
        → set_prev p q h
          ≡ ok tt (record h { nodes = write h.nodes p (some (record n { prev = q })) })
    unfolding set_prev
    set_prev-ok q = rw load-ok

    pub free_node-ok : free_node p h ≡ ok tt (record h { nodes = write h.nodes p none })
    unfolding free_node
    free_node-ok = rw load-ok

  module _ {x : V} (e : h.items p ≡ some x) (ne : p ≢ null) where
    pub load_item-ok : load_item p h ≡ ok x h
    unfolding load_item
    load_item-ok = ground arith

    pub store_item-ok :
        (y : V) → store_item p y h ≡ ok tt (record h { items = write h.items p (some y) })
    unfolding store_item
    store_item-ok y = rw load_item-ok

    pub free_item-ok : free_item p h ≡ ok tt (record h { items = write h.items p none })
    unfolding free_item
    free_item-ok = let alive : (p == null) ≡ false = ground arith in rw (alive, load_item-ok)
