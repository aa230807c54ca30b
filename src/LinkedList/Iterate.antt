-- ===== src/LinkedList/Iterate.antt =====
-- `llist_iterate` of src/routing/utils/linkedlist.c.
use vt_mechanisms.Prelude.{
  ℕ, ◌+◌, ◌≡◌, refl, subst, sym, [], ◌∷◌, ◌++◌, arith, ◌==◌, length, pos, if◌then◌else◌,
  length-append, append_assoc, inl, inr, Bool-cases,
}
use vt_mechanisms.Heap.{Ptr, null, Heap, Run, Cmd, ok, fault, out_of_fuel, pure, and_then, ◌>>=◌}
use vt_mechanisms.LinkedList.Linked.{Cells, IsList}
use vt_mechanisms.LinkedList.Walk.{item_at, llist_get_lem}
use vt_mechanisms.LinkedList.{Llist, iterate_loop, llist_iterate}

-- the calls of `act_on` on the items that are not NULL, from left to right
pub visit : {V S : Type 0} → (Ptr → S → Cmd V S) → Cells → S → Cmd V S
visit act_on [] args = pure args
visit act_on ((p, v) ∷ xs) args = do
  args' ← if v == null then pure args else act_on v args
  visit act_on xs args'

-- a run leaves the nodes as they are, if it ends
abbrev pub KeepsNodes : {V A : Type 0} → Heap V → Run V A → Type 0
KeepsNodes h (ok a g) = g.nodes ≡ h.nodes
KeepsNodes h fault = Unit
KeepsNodes h out_of_fuel = Unit

item_at-append : (ys : Cells) (p v : Ptr) (xs : Cells) → item_at (ys ++ (p, v) ∷ xs) (length ys) ≡ v
item_at-append [] p v xs = refl
item_at-append (y ∷ ys) p v xs = item_at-append ys p v xs

and_then_congr :
    {V A B : Type 0} (h : Heap V) (r : Run V A) (k k' : A → Cmd V B)
    → KeepsNodes h r
    → ((a : A) (g : Heap V) → g.nodes ≡ h.nodes → k a g ≡ k' a g)
    → and_then r k ≡ and_then r k'
and_then_congr h (ok a g) k k' same next = next a g same
and_then_congr h fault k k' same next = refl
and_then_congr h out_of_fuel k k' same next = refl

module _ {V S : Type 0} (l : Llist V) (act_on : Ptr → S → Cmd V S)
    (keeps : (v : Ptr) (s : S) (h : Heap V) → KeepsNodes h (act_on v s h)) where
  first_call : Ptr → S → Cmd V S
  first_call v args = if v == null then pure args else act_on v args

  first_call-KeepsNodes : (v : Ptr) (s : S) (h : Heap V) → KeepsNodes h (first_call v s h)
  unfolding first_call
  first_call-KeepsNodes v s h = elim (Bool-cases (v == null)) [
    | inl absent ↦ rw absent refl
    | inr present ↦ rw present (keeps v s h)
  ]

  iterate_loop-visit :
      (ys xs : Cells) (i : ℕ) (args : S) (h : Heap V)
      → IsList h.nodes l (ys ++ xs)
      → i ≡ length ys
      → iterate_loop l act_on (length xs) i args h ≡ visit act_on xs args h
  unfolding iterate_loop visit first_call
  iterate_loop-visit ys [] i args h is e = refl
  iterate_loop-visit ys ((p, v) ∷ xs) i args h is e =
      let got = llist_get_lem h l (ys ++ (p, v) ∷ xs) is (pos i) in
      let at : item_at (ys ++ (p, v) ∷ xs) i ≡ v = rw e (item_at-append ys p v xs) in
      rw (got, at)
        (and_then_congr h (first_call v args h) _ _ (first_call-KeepsNodes v args h) λ args' g same.
          iterate_loop-visit (ys ++ (p, v) ∷ []) xs (i + 1) args' g
            (rw same (subst (IsList h.nodes l) (sym (append_assoc ys ((p, v) ∷ []) xs)) is))
            (omega (arith, e, length-append ys ((p, v) ∷ []))))

  -- with a callback that changes no node, `llist_iterate` calls it on each item that is not NULL,
  -- from the first to the last, and does nothing else
  pub llist_iterate_lem :
      (xs : Cells) (args : S) (h : Heap V)
      → IsList h.nodes l xs
      → llist_iterate l act_on args h ≡ visit act_on xs args h
  unfolding llist_iterate
  llist_iterate_lem xs args h is =
      subst (λ n. iterate_loop l act_on n 0 args h ≡ visit act_on xs args h) (sym is.size)
        (iterate_loop-visit [] xs 0 args h is refl)
