-- ===== src/LinkedList/Append.antt =====
-- `llist_init` and `llist_append` of src/routing/utils/linkedlist.c.
use vt_mechanisms.Prelude.{
  ◌+◌, ◌≡◌, refl, ◌≢◌, false, none, some, [], ◌∷◌, ◌++◌, arith, length-append, ℤ,
}
use vt_mechanisms.Heap.{Ptr, null, LlistElem, Heap, ok, malloc_node, set_item, set_next, set_prev}
use vt_mechanisms.Heap.Access.{Ends, Ends-mono}
use vt_mechanisms.LinkedList.Linked
use vt_mechanisms.LinkedList.Linked.{
  Cells, has, first, last, last_elem, elem, Linked, IsList, SameOutside,
}
use vt_mechanisms.LinkedList.{Llist, llist_append, llist_init, success, out_of_memory_error}

-- The outcome of adding the node `p` with the item `v` to a list that holds `xs`.
pub record IsAppended {V : Type 0} (h : Heap V) (l : Llist V) (xs : Cells) (p v : Ptr)
    (r : ℤ × Llist V) (g : Heap V) : Type 0 where
  pub result : r.0 ≡ success
  pub list : IsList g.nodes r.1 (xs ++ (p, v) ∷ [])
  pub checker : r.1.equals ≡ l.equals
  pub same : SameOutside ((p, v) ∷ xs) h.nodes g.nodes
  pub items : g.items ≡ h.items

module _ {V : Type 0} (h : Heap V) (l : Llist V) (p : Ptr) (junk : LlistElem) (v : Ptr) where
  -- what the assignments leave behind a last node `n`
  record Written (n : LlistElem) (r : ℤ × Llist V) (g : Heap V) : Type 0 where
    result : r.0 ≡ success
    size : r.1.size ≡ l.size + 1
    head : r.1.head ≡ l.head
    tail : r.1.tail ≡ p
    checker : r.1.equals ≡ l.equals
    here : g.nodes p ≡ some (elem v null l.tail)
    behind : g.nodes l.tail ≡ some (record n { next = p })
    same : (a : Ptr) → a ≢ p → a ≢ l.tail → g.nodes a ≡ h.nodes a
    items : g.items ≡ h.items

  append-Written :
      (n : LlistElem)
      → h.nodes l.tail ≡ some n
      → l.tail ≢ null
      → l.head ≢ null
      → p ≢ null
      → l.tail ≢ p
      → Ends (llist_append p junk l v h) (Written n)
  unfolding llist_append malloc_node set_item set_next set_prev
  append-Written n e nt nh np ne = ground arith

  append-first :
      IsList h.nodes l [] → p ≢ null → Ends (llist_append p junk l v h) (IsAppended h l [] p v)
  unfolding llist_append malloc_node set_item set_next set_prev
  append-first is np = ground arith

  module _ (q w : Ptr) (xs : Cells) (is : IsList h.nodes l ((q, w) ∷ xs)) (np : p ≢ null)
      (out : has p ((q, w) ∷ xs) ≡ false) where
    Written-Linked :
        (r : ℤ × Llist V) (g : Heap V)
        → Written (last_elem null q w xs null) r g
        → Linked g.nodes null ((q, w) ∷ xs ++ (p, v) ∷ []) null
    Written-Linked r g o =
        let relinked = Linked.relink_last h.nodes null q w xs null p is.linked in
        let behind = rw (is.tail, Linked.last_elem-next null q w xs null p) at o.behind in
        Linked.join g.nodes null ((q, w) ∷ xs) ((p, v) ∷ []) null
          (Linked.frame _ g.nodes null ((q, w) ∷ xs) p relinked λ a i.
            Linked.write_agrees h.nodes g.nodes (last q xs) _ behind a
              ((rw is.tail at o.same) a (Linked.ne_of_has a p ((q, w) ∷ xs) i out)))
          (rw (← is.tail) o.here, np, refl, tt) (λ a i. ground arith)

    Written-IsAppended :
        (r : ℤ × Llist V) (g : Heap V)
        → Written (last_elem null q w xs null) r g
        → IsAppended h l ((q, w) ∷ xs) p v r g
    Written-IsAppended r g o = record {
      result = o.result;
      list = record {
        size = omega (arith, length-append xs ((p, v) ∷ []), o.size, is.size);
        head = ground (arith, o.head, is.head);
        tail = rw (Linked.last-append q xs ((p, v) ∷ [])) o.tail;
        linked = Written-Linked r g o;
      };
      checker = o.checker;
      same = λ a i. o.same a (ground arith) (ground (arith, Linked.has-last q w xs));
      items = o.items;
    }

  -- given an unused address, `llist_append` puts the item behind the last one and writes nowhere
  -- else; the list keeps its order and its checker
  pub llist_append_lem :
      (xs : Cells)
      → IsList h.nodes l xs
      → p ≢ null
      → h.nodes p ≡ none
      → Ends (llist_append p junk l v h) (IsAppended h l xs p v)
  llist_append_lem [] is np unused = append-first is np
  llist_append_lem ((q, w) ∷ xs) is np unused =
      let out = Linked.not-mem_of_none h.nodes p null ((q, w) ∷ xs) null is.linked unused in
      let n : LlistElem = last_elem null q w xs null in
      let (e, ne) = Linked.last_lem h.nodes null q w xs null is.linked in
      let qn = is.linked.1 in
      Ends-mono _ (Written n) _
        (append-Written n (rw is.tail e) (ground arith) (ground arith) np
          (ground (arith, Linked.last-ne p q w xs out)))
        (Written-IsAppended q w xs is np out)

  -- with no memory left `llist_append` says so and changes nothing
  pub llist_append-null : llist_append null junk l v h ≡ ok (out_of_memory_error, l) h
  unfolding llist_append
  llist_append-null = refl

-- a fresh structure holds no item
pub llist_init_lem : {V : Type 0} (h : Heap V) → IsList h.nodes (llist_init {V = V}) []
unfolding llist_init
llist_init_lem h = record { size = refl; head = refl; tail = refl; linked = tt }
