-- ===== src/LinkedList/Unlink.antt =====
-- The three ways in which `llist_remove_at` takes a node out of a list.
use vt_mechanisms.Prelude.{
  ◌-◌, ◌≡◌, sym, ◌∙◌, ◌≢◌, ◌<◌, none, some, [], ◌∷◌, ◌++◌, arith, length-append,
}
use vt_mechanisms.Heap.{Ptr, null, LlistElem, Heap, set_next, set_prev, free_node}
use vt_mechanisms.Heap.Access.{Ends}
use vt_mechanisms.LinkedList.Linked
use vt_mechanisms.LinkedList.Linked.{
  Cells, has, first, last, last_elem, elem, Linked, IsList, SameOutside, Disjoint,
}
use vt_mechanisms.LinkedList.{Llist, unlink}

-- The outcome of taking out the node `q` with the item `v`, which leaves the list `xs`.
pub record IsRemoved {V : Type 0} (h : Heap V) (l : Llist V) (q v : Ptr) (xs : Cells)
    (r : Ptr × Llist V) (g : Heap V) : Type 0 where
  pub result : r.0 ≡ v
  pub list : IsList g.nodes r.1 xs
  pub checker : r.1.equals ≡ l.equals
  pub freed : g.nodes q ≡ none
  pub same : SameOutside ((q, v) ∷ xs) h.nodes g.nodes
  pub items : g.items ≡ h.items

module _ {V : Type 0} (h : Heap V) (l : Llist V) (q v : Ptr) where
  pub unlink_only :
      IsList h.nodes l ((q, v) ∷ []) → Ends (unlink l q (elem v null null) h) (IsRemoved h l q v [])
  unfolding unlink free_node
  unlink_only is = ground arith

  -- the heap after the head was unlinked, with `z` behind it
  pub record HeadGone (z w : Ptr) (zs : Cells) (r : Ptr × Llist V) (g : Heap V) : Type 0 where
    pub result : r.0 ≡ v
    pub size : r.1.size ≡ l.size - 1
    pub head : r.1.head ≡ z
    pub tail : r.1.tail ≡ l.tail
    pub checker : r.1.equals ≡ l.equals
    pub freed : g.nodes q ≡ none
    pub behind : g.nodes z ≡ some (elem w (first zs null) null)
    pub same : (a : Ptr) → a ≢ q → a ≢ z → g.nodes a ≡ h.nodes a
    pub items : g.items ≡ h.items

  pub unlink-HeadGone :
      (z w : Ptr) (zs : Cells)
      → 1 < l.size
      → l.head ≡ q
      → h.nodes q ≡ some (elem v z null)
      → h.nodes z ≡ some (elem w (first zs null) q)
      → q ≢ null
      → z ≢ null
      → z ≢ q
      → Ends (unlink l q (elem v z null) h) (HeadGone z w zs)
  unfolding unlink free_node set_prev
  unlink-HeadGone z w zs size head eq ez qn zn zq = ground arith

  pub HeadGone-IsRemoved :
      (z w : Ptr) (zs : Cells)
      → IsList h.nodes l ((q, v) ∷ (z, w) ∷ zs)
      → (r : Ptr × Llist V) (g : Heap V) → HeadGone z w zs r g
      → IsRemoved h l q v ((z, w) ∷ zs) r g
  HeadGone-IsRemoved z w zs is r g o =
      let (e, ne, out, rest) = is.linked in
      record {
        result = o.result;
        list = record {
          size = omega (arith, o.size, is.size);
          head = o.head;
          tail = o.tail ∙ is.tail;
          linked =
              Linked.frame _ g.nodes null ((z, w) ∷ zs) null
                (Linked.relink_first h.nodes q null z w zs null rest)
                λ a i.
                  Linked.write_agrees h.nodes g.nodes z _ o.behind a
                    (o.same a (Linked.ne_of_has a q ((z, w) ∷ zs) i out));
        };
        checker = o.checker;
        freed = o.freed;
        same = λ a i. o.same a (ground arith) (ground arith);
        items = o.items;
      }

  -- the heap after the tail was unlinked, with `p` before it
  pub record TailGone (p : Ptr) (n : LlistElem) (r : Ptr × Llist V) (g : Heap V) : Type 0 where
    pub result : r.0 ≡ v
    pub size : r.1.size ≡ l.size - 1
    pub head : r.1.head ≡ l.head
    pub tail : r.1.tail ≡ p
    pub checker : r.1.equals ≡ l.equals
    pub freed : g.nodes q ≡ none
    pub behind : g.nodes p ≡ some (record n { next = null })
    pub same : (a : Ptr) → a ≢ q → a ≢ p → g.nodes a ≡ h.nodes a
    pub items : g.items ≡ h.items

  pub unlink-TailGone :
      (p : Ptr) (n : LlistElem)
      → h.nodes p ≡ some n
      → p ≢ null
      → q ≢ null
      → q ≢ l.head
      → q ≡ l.tail
      → p ≢ q
      → h.nodes q ≡ some (elem v null p)
      → Ends (unlink l q (elem v null p) h) (TailGone p n)
  unfolding unlink free_node set_next
  unlink-TailGone p n e pn qn qh qt pq eq = ground arith

  -- the heap after an inner node was unlinked, with `p` before it and `z` behind
  pub record InnerGone (p z : Ptr) (n m : LlistElem) (r : Ptr × Llist V) (g : Heap V) : Type 0 where
    pub result : r.0 ≡ v
    pub size : r.1.size ≡ l.size - 1
    pub head : r.1.head ≡ l.head
    pub tail : r.1.tail ≡ l.tail
    pub checker : r.1.equals ≡ l.equals
    pub freed : g.nodes q ≡ none
    pub before : g.nodes p ≡ some (record n { next = z })
    pub behind : g.nodes z ≡ some (record m { prev = p })
    pub same : (a : Ptr) → a ≢ q → a ≢ p → a ≢ z → g.nodes a ≡ h.nodes a
    pub items : g.items ≡ h.items

  pub unlink-InnerGone :
      (p z : Ptr) (n m : LlistElem)
      → h.nodes p ≡ some n
      → h.nodes z ≡ some m
      → h.nodes q ≡ some (elem v z p)
      → p ≢ null
      → q ≢ null
      → z ≢ null
      → q ≢ l.head
      → q ≢ l.tail
      → p ≢ q
      → z ≢ q
      → z ≢ p
      → Ends (unlink l q (elem v z p) h) (InnerGone p z n m)
  unfolding unlink free_node set_next set_prev
  unlink-InnerGone p z n m ep ez eq pn qn zn qh qt pq zq zp = ground arith

  pub TailGone-IsRemoved :
      (p u : Ptr) (ys : Cells)
      → IsList h.nodes l (((p, u) ∷ ys) ++ (q, v) ∷ [])
      → (r : Ptr × Llist V) (g : Heap V) → TailGone (last p ys) (last_elem null p u ys q) r g
      → IsRemoved h l q v ((p, u) ∷ ys) r g
  TailGone-IsRemoved p u ys is r g o =
      let (front, back, apart) =
        Linked.split h.nodes null ((p, u) ∷ ys) ((q, v) ∷ []) null is.linked in
      let relinked = Linked.relink_last h.nodes null p u ys q null front in
      let behind = rw (Linked.last_elem-next null p u ys q null) at o.behind in
      let out = Linked.not_mem_left ((p, u) ∷ ys) q v [] apart in
      record {
        result = o.result;
        list = record {
          size = omega (arith, o.size, is.size, length-append ys ((q, v) ∷ []));
          head = o.head ∙ is.head;
          tail = o.tail;
          linked = Linked.frame _ g.nodes null ((p, u) ∷ ys) null relinked λ a i.
              Linked.write_agrees h.nodes g.nodes (last p ys) _ behind a
                (o.same a (Linked.ne_of_has a q ((p, u) ∷ ys) i out));
        };
        checker = o.checker;
        freed = o.freed;
        same = λ a i. o.same a (ground arith) (ground (arith, Linked.has-last p u ys));
        items = o.items;
      }

  InnerGone-Linked :
      (p u : Ptr) (ys : Cells) (z w : Ptr) (zs : Cells)
      → Linked h.nodes null (((p, u) ∷ ys) ++ (q, v) ∷ (z, w) ∷ zs) null
      → (r : Ptr × Llist V) (g : Heap V)
      → InnerGone (last p ys) z (last_elem null p u ys q) (elem w (first zs null) q) r g
      → Linked g.nodes null (((p, u) ∷ ys) ++ (z, w) ∷ zs) null
  InnerGone-Linked p u ys z w zs linked r g o =
      let front_cells : Cells = (p, u) ∷ ys in
      let back_cells : Cells = (z, w) ∷ zs in
      let (front, (eq, nq, out, back), apart) =
        Linked.split h.nodes null front_cells ((q, v) ∷ back_cells) null linked in
      let out_front = Linked.not_mem_left front_cells q v back_cells apart in
      let apart' : Disjoint front_cells back_cells = λ a i. ground (arith, apart a i) in
      let out_z = Linked.not_mem_left front_cells z w zs apart' in
      let before = rw (Linked.last_elem-next null p u ys q z) at o.before in
      Linked.join g.nodes null front_cells back_cells null
        (Linked.frame _ g.nodes null front_cells z
          (Linked.relink_last h.nodes null p u ys q z front)
          λ a i. Linked.write_agrees h.nodes g.nodes (last p ys) _ before a λ ne.
            o.same a (Linked.ne_of_has a q front_cells i out_front) ne
              (Linked.ne_of_has a z front_cells i out_z))
        (Linked.frame _ g.nodes (last p ys) back_cells null
          (Linked.relink_first h.nodes q (last p ys) z w zs null back)
          λ a i. Linked.write_agrees h.nodes g.nodes z _ o.behind a (
            o.same a (Linked.ne_of_has a q back_cells i out) (
              Linked.ne_of_has a (last p ys) back_cells i
                (apart' (last p ys) (Linked.has-last p u ys)))))
        apart'

  pub InnerGone-IsRemoved :
      (p u : Ptr) (ys : Cells) (z w : Ptr) (zs : Cells)
      → IsList h.nodes l (((p, u) ∷ ys) ++ (q, v) ∷ (z, w) ∷ zs)
      → (r : Ptr × Llist V) (g : Heap V)
      → InnerGone (last p ys) z (last_elem null p u ys q) (elem w (first zs null) q) r g
      → IsRemoved h l q v (((p, u) ∷ ys) ++ (z, w) ∷ zs) r g
  InnerGone-IsRemoved p u ys z w zs is r g o = record {
    result = o.result;
    list = record {
      size = omega (
        arith,
        o.size,
        is.size,
        length-append ys ((q, v) ∷ (z, w) ∷ zs),
        length-append ys ((z, w) ∷ zs),
      );
      head = o.head ∙ is.head;
      tail =
          o.tail
          ∙ is.tail
          ∙ Linked.last-append p ys ((q, v) ∷ (z, w) ∷ zs)
          ∙ sym (Linked.last-append p ys ((z, w) ∷ zs));
      linked = InnerGone-Linked p u ys z w zs is.linked r g o;
    };
    checker = o.checker;
    freed = o.freed;
    same = λ a i.
        let e = Linked.has-append a ys ((z, w) ∷ zs) in
        let f = Linked.has-last p u ys in
        o.same a (ground arith) (λ e'. ground (arith, e, f, e')) (ground arith);
    items = o.items;
  }
