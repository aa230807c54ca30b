-- ===== src/LinkedList/RemoveAt.antt =====
-- `llist_remove_at` of src/routing/utils/linkedlist.c, inside the list and outside it.
use vt_mechanisms.Prelude.{
  ℕ, zero, suc, ◌+◌, ◌<◌, ◌≡◌, refl, ◌⊎◌, [], ◌∷◌, ◌++◌, arith, length, ℤ, pos, negsuc, ◌==ℤ◌, ◌≤ℤ◌,
  ◌==◌, true, false, append-nil, subst, sym, ◌∙◌,
}
use vt_mechanisms.Heap.{Ptr, null, Heap, ok}
use vt_mechanisms.Heap.Access.{Ends, Ends-mono, load-ok}
use vt_mechanisms.LinkedList.Linked
use vt_mechanisms.LinkedList.Linked.{Cells, first, last, last_elem, elem, Linked, IsList}
use vt_mechanisms.LinkedList.Unlink.{
  IsRemoved, unlink_only, unlink-HeadGone, HeadGone, HeadGone-IsRemoved, unlink-TailGone, TailGone,
  TailGone-IsRemoved, unlink-InnerGone, InnerGone, InnerGone-IsRemoved,
}
use vt_mechanisms.LinkedList.{Llist, unlink, remove_at_loop, llist_remove_at}

module _ {V : Type 0} (h : Heap V) (l : Llist V) (q v : Ptr) where
  unlink-IsRemoved :
      (ys zs : Cells)
      → IsList h.nodes l (ys ++ (q, v) ∷ zs)
      → Ends (unlink l q (elem v (first zs null) (last null ys)) h) (IsRemoved h l q v (ys ++ zs))
  unlink-IsRemoved [] [] is = unlink_only h l q v is
  unlink-IsRemoved [] ((z, w) ∷ zs) is =
      let (e, ne, out, (e', ne', _, _)) = is.linked in
      Ends-mono _ (HeadGone h l q v z w zs) _
        (unlink-HeadGone h l q v z w zs (omega (arith, is.size)) is.head e e' ne ne' (ground arith))
        (HeadGone-IsRemoved h l q v z w zs is)
  unlink-IsRemoved ((p, u) ∷ ys) [] is =
      let (front, (e, ne, _, _), apart) =
        Linked.split h.nodes null ((p, u) ∷ ys) ((q, v) ∷ []) null is.linked in
      let (ep, np) = Linked.last_lem h.nodes null p u ys q front in
      let out = Linked.not_mem_left ((p, u) ∷ ys) q v [] apart in
      rw (append-nil) (
        Ends-mono _ (TailGone h l q v (last p ys) (last_elem null p u ys q)) _
          (unlink-TailGone h l q v (last p ys) _ ep np ne (ground (arith, out, is.head))
            (sym (is.tail ∙ Linked.last-append p ys ((q, v) ∷ []))) (Linked.ne_last p u ys q out) e)
          (TailGone-IsRemoved h l q v p u ys is))
  unlink-IsRemoved ((p, u) ∷ ys) ((z, w) ∷ zs) is =
      let (front, (e, ne, out', (ez, nz, _, _)), apart) =
        Linked.split h.nodes null ((p, u) ∷ ys) ((q, v) ∷ (z, w) ∷ zs) null is.linked in
      let (ep, np) = Linked.last_lem h.nodes null p u ys q front in
      let out = Linked.not_mem_left ((p, u) ∷ ys) q v ((z, w) ∷ zs) apart in
      let out_z = Linked.not_mem_left ((p, u) ∷ ys) z w zs (λ a i. ground (arith, apart a i)) in
      let tail = is.tail ∙ Linked.last-append p ys ((q, v) ∷ (z, w) ∷ zs) in
      Ends-mono _ (InnerGone h l q v (last p ys) z (last_elem null p u ys q) _) _
        (unlink-InnerGone h l q v (last p ys) z _ _ ep ez e np ne nz (ground (arith, out, is.head))
          (λ e'. Linked.ne_last z w zs q out' (sym (e' ∙ tail))) (Linked.ne_last p u ys q out)
          (Linked.ne_first z w zs q out') (λ e'. Linked.ne_last p u ys z out_z (sym e')))
        (InnerGone-IsRemoved h l q v p u ys z w zs is)

module _ {V : Type 0} (h : Heap V) (l : Llist V) where
  remove_at_loop-unlink :
      (k i index before : ℕ) (ys : Cells) (q v : Ptr) (zs : Cells)
      → Linked h.nodes before (ys ++ (q, v) ∷ zs) null
      → length (ys ++ (q, v) ∷ zs) < k
      → index ≡ i + length ys
      → remove_at_loop l (pos index) k i (first (ys ++ (q, v) ∷ zs) null) h
        ≡ unlink l q (elem v (first zs null) (last before ys)) h
  unfolding remove_at_loop
  remove_at_loop-unlink zero i index before ys q v zs c fuel e = absurd (omega arith)
  remove_at_loop-unlink (suc k) i index before [] q v zs c fuel e =
      let none_q : (q == null) ≡ false = ground (arith, c.1) in
      let hit : (pos i ==ℤ pos index) ≡ true = ground arith in
      rw (none_q, load-ok h q _ c.0 c.1, hit)
  remove_at_loop-unlink (suc k) i index before ((p, u) ∷ ys) q v zs c fuel e =
      let none_p : (p == null) ≡ false = ground (arith, c.1) in
      let miss : (pos i ==ℤ pos index) ≡ false = ground arith in
      rw (none_p, load-ok h p _ c.0 c.1, miss)
        (remove_at_loop-unlink k (i + 1) index p ys q v zs c.3 (omega arith) (omega arith))

  remove_at_loop-outside :
      (index : ℤ) (k i before : ℕ) (xs : Cells)
      → Linked h.nodes before xs null
      → length xs < k
      → (index ≤ℤ negsuc 0) ⊎ (pos (i + length xs) ≤ℤ index)
      → remove_at_loop l index k i (first xs null) h ≡ ok (null, l) h
  unfolding remove_at_loop
  remove_at_loop-outside index zero i before xs c fuel far = absurd (omega arith)
  remove_at_loop-outside index (suc k) i before [] c fuel far = refl
  remove_at_loop-outside index (suc k) i before ((p, u) ∷ xs) c fuel far =
      let none_p : (p == null) ≡ false = ground (arith, c.1) in
      let miss : (pos i ==ℤ index) ≡ false = ground arith in
      rw (none_p, load-ok h p _ c.0 c.1, miss)
        (remove_at_loop-outside index k (i + 1) p xs c.3 (omega arith) (ground arith))

  -- `llist_remove_at` at the position of an item returns it, takes its node out of the list and
  -- frees the node; the others keep their order and nothing else is written
  pub llist_remove_at_lem :
      (ys : Cells) (q v : Ptr) (zs : Cells)
      → IsList h.nodes l (ys ++ (q, v) ∷ zs)
      → Ends (llist_remove_at l (pos (length ys)) h) (IsRemoved h l q v (ys ++ zs))
  unfolding llist_remove_at
  llist_remove_at_lem ys q v zs is =
      let run =
        subst
          (λ p.
            remove_at_loop l (pos (length ys)) (l.size + 1) 0 p h
            ≡ unlink l q (elem v (first zs null) (last null ys)) h)
          (sym is.head)
          (remove_at_loop-unlink (l.size + 1) 0 (length ys) null ys q v zs is.linked
            (omega (arith, is.size)) (omega arith)) in
      rw run (unlink-IsRemoved h l q v ys zs is)

  -- at any other position, negative ones included, it returns NULL and changes nothing
  pub llist_remove_at-outside :
      (index : ℤ) (xs : Cells)
      → IsList h.nodes l xs
      → (index ≤ℤ negsuc 0) ⊎ (pos (length xs) ≤ℤ index)
      → llist_remove_at l index h ≡ ok (null, l) h
  unfolding llist_remove_at
  llist_remove_at-outside index xs is far =
      subst (λ p. remove_at_loop l index (l.size + 1) 0 p h ≡ ok (null, l) h) (sym is.head)
        (remove_at_loop-outside index (l.size + 1) 0 null xs is.linked (omega (arith, is.size))
          (ground arith))
