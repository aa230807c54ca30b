-- ===== src/LinkedList/Requeue.antt =====
-- `llist_requeue` of src/routing/utils/linkedlist.c.
use vt_mechanisms.Prelude.{
  ◌≡◌, refl, sym, ◌∙◌, ◌≢◌, ◌<◌, ◌||◌, true, some, [], ◌∷◌, ◌++◌, arith, ◌==◌, length-append,
}
use vt_mechanisms.Heap.{Ptr, null, LlistElem, Heap, ok, write, set_next, set_prev}
use vt_mechanisms.Heap.Access.{Ends, Ends-mono}
use vt_mechanisms.LinkedList.Linked
use vt_mechanisms.LinkedList.Linked.{
  Cells, has, first, last, last_elem, elem, Linked, IsList, SameOutside,
}
use vt_mechanisms.LinkedList.{Llist, llist_requeue}

-- The outcome of a rearrangement of the nodes of `xs` into `ys`.
pub record IsRelinked {V : Type 0} (h : Heap V) (l : Llist V) (xs ys : Cells) (l' : Llist V)
    (g : Heap V) : Type 0 where
  pub list : IsList g.nodes l' ys
  pub checker : l'.equals ≡ l.equals
  pub same : SameOutside xs h.nodes g.nodes
  pub items : g.items ≡ h.items

module _ {V : Type 0} (h : Heap V) (l : Llist V) (q v z w : Ptr) (zs : Cells) where
  -- what the assignments leave: `m` is the tail once `z` has no predecessor
  record Moved (m : LlistElem) (l' : Llist V) (g : Heap V) : Type 0 where
    size : l'.size ≡ l.size
    head : l'.head ≡ z
    tail : l'.tail ≡ q
    checker : l'.equals ≡ l.equals
    here : g.nodes q ≡ some (elem v null l.tail)
    behind : g.nodes l.tail ≡ some (record m { next = q })
    same :
        (a : Ptr)
        → a ≢ q
        → a ≢ l.tail
        → g.nodes a ≡ write h.nodes z (some (elem w (first zs null) null)) a
    items : g.items ≡ h.items

  requeue-Moved :
      (m : LlistElem)
      → 1 < l.size
      → l.head ≡ q
      → h.nodes q ≡ some (elem v z null)
      → h.nodes z ≡ some (elem w (first zs null) q)
      → write h.nodes z (some (elem w (first zs null) null)) l.tail ≡ some m
      → q ≢ null
      → z ≢ null
      → z ≢ q
      → l.tail ≢ q
      → l.tail ≢ null
      → Ends (llist_requeue l h) (Moved m)
  unfolding llist_requeue set_next set_prev
  requeue-Moved m size head eq ez et qn zn zq tq tn = ground arith

  module _ (is : IsList h.nodes l ((q, v) ∷ (z, w) ∷ zs)) where
    tail_eq : l.tail ≡ last z zs
    tail_eq = is.tail

    ahead : Linked (write h.nodes z (some (elem w (first zs null) null))) null ((z, w) ∷ zs) null
    ahead = Linked.relink_first h.nodes q null z w zs null is.linked.3

    Moved-Linked :
        (l' : Llist V) (g : Heap V)
        → Moved (last_elem null z w zs null) l' g
        → Linked g.nodes null (((z, w) ∷ zs) ++ (q, v) ∷ []) null
    Moved-Linked l' g o =
        let (_, nq, out, _) = is.linked in
        let f₁ = write h.nodes z (some (elem w (first zs null) null)) in
        let behind = rw (is.tail, Linked.last_elem-next null z w zs null q) at o.behind in
        Linked.join g.nodes null ((z, w) ∷ zs) ((q, v) ∷ []) null
          (Linked.frame _ g.nodes null ((z, w) ∷ zs) q
            (Linked.relink_last f₁ null z w zs null q ahead)
            λ a i.
              Linked.write_agrees f₁ g.nodes (last z zs) _ behind a
                ((rw is.tail at o.same) a (Linked.ne_of_has a q ((z, w) ∷ zs) i out)))
          (rw is.tail at o.here, nq, refl, tt)
          (λ a i. let ne = Linked.ne_of_has a q ((z, w) ∷ zs) i out in ground arith)

    Moved-IsRelinked :
        (l' : Llist V) (g : Heap V)
        → Moved (last_elem null z w zs null) l' g
        → IsRelinked h l ((q, v) ∷ (z, w) ∷ zs) (((z, w) ∷ zs) ++ (q, v) ∷ []) l' g
    Moved-IsRelinked l' g o = record {
      list = record {
        size = omega (arith, o.size, is.size, length-append zs ((q, v) ∷ []));
        head = o.head;
        tail = o.tail ∙ sym (Linked.last-append z zs ((q, v) ∷ []));
        linked = Moved-Linked l' g o;
      };
      checker = o.checker;
      same = λ a i.
          o.same a (ground arith) (ground (arith, is.tail, Linked.has-last z w zs)) ∙ ground arith;
      items = o.items;
    }

    requeue_two :
        Ends
          (llist_requeue l h)
          (IsRelinked h l ((q, v) ∷ (z, w) ∷ zs) (((z, w) ∷ zs) ++ (q, v) ∷ []))
    requeue_two =
        let (e, ne, out, (e', ne', _, _)) = is.linked in
        let f₁ = write h.nodes z (some (elem w (first zs null) null)) in
        let (et, nt) = Linked.last_lem f₁ null z w zs null ahead in
        Ends-mono _ (Moved (last_elem null z w zs null)) _
          (requeue-Moved _ (omega (arith, is.size)) is.head e e' (rw is.tail et) ne ne'
            (Linked.ne_first z w zs q out) (λ e''. Linked.ne_last z w zs q out (sym is.tail ∙ e''))
            (λ e''. nt (sym is.tail ∙ e'')))
          Moved-IsRelinked

-- a list with its first item moved to the end
abbrev pub rotate : Cells → Cells
rotate [] = []
rotate (x ∷ xs) = xs ++ x ∷ []

requeue_small :
    {V : Type 0} (h : Heap V) (l : Llist V)
    → ((l.size == 0) || (l.size == 1)) ≡ true
    → llist_requeue l h ≡ ok l h
unfolding llist_requeue
requeue_small h l small = rw small

-- `llist_requeue` moves the first node to the end, relinks only nodes of the list and changes no
-- item; a list of no item or of one stays as it is
pub llist_requeue_lem :
    {V : Type 0} (h : Heap V) (l : Llist V) (xs : Cells)
    → IsList h.nodes l xs
    → Ends (llist_requeue l h) (IsRelinked h l xs (rotate xs))
llist_requeue_lem h l [] is =
    rw (requeue_small h l (ground (arith, is.size)))
      (record { list = is; checker = refl; same = λ a i. refl; items = refl })
llist_requeue_lem h l (x ∷ []) is =
    rw (requeue_small h l (ground (arith, is.size)))
      (record { list = is; checker = refl; same = λ a i. refl; items = refl })
llist_requeue_lem h l ((q, v) ∷ (z, w) ∷ zs) is = requeue_two h l q v z w zs is
