-- ===== src/HashMap/Update.antt =====
-- What the chains of a table find after one element was written.
use vt_mechanisms.Prelude.{
  ℕ, ◌≡◌, refl, sym, ◌∙◌, ◌≢◌, true, false, Bool-cases, inl, inr, ◌==◌, [], ◌∷◌, ◌++◌, Option, none,
  some, ℤ, ◌==ℤ◌, arith, ==→eq,
}
use vt_mechanisms.Heap.{Ptr, null}
use vt_mechanisms.LinkedList.Linked.{Cells}
use vt_mechanisms.HashMap.{HashmapElem, bucket_index}
use vt_mechanisms.HashMap.Chain.{Items, find, value_of, Live, find-here, find-next, ==ℤ→eq}

-- `g` is `f` with the element `e` at `t`, where `f` has nothing or an element with the same key.
pub record Writes (f g : Items) (t : Ptr) (e : HashmapElem) : Type 0 where
  pub here : g t ≡ some e
  pub same : (a : Ptr) → a ≢ t → g a ≡ f a
  pub old : (d : HashmapElem) → f t ≡ some d → d.key_val ≡ e.key_val

abbrev pub InBucket : ℕ → ℕ → HashmapElem → Type 0
InBucket n i e = bucket_index e.key_val n ≡ some i

module _ (f g : Items) (t : Ptr) (e : HashmapElem) (w : Writes f g t e) where
  -- an element that was there still is, under the same key
  pub kept :
      (v : Ptr) (d : HashmapElem)
      → f v ≡ some d
      → (d' : HashmapElem) × (g v ≡ some d') × (d'.key_val ≡ d.key_val)
  kept v d at = elim (Bool-cases (v == t)) [
    | inl is ↦ let vt = ==→eq v t is in (e, rw vt w.here, sym (w.old d (rw vt at at)))
    | inr other ↦ (d, w.same v (ground arith) ∙ at, refl)
  ]

  -- and it is the same one, unless it has the key that was written
  pub kept_other :
      (v : Ptr) (d : HashmapElem) → f v ≡ some d → (d.key_val ==ℤ e.key_val) ≡ false → g v ≡ some d
  kept_other v d at other = elim (Bool-cases (v == t)) [
    | inl is ↦ let vt = ==→eq v t is in let same = w.old d (rw vt at at) in absurd (ground arith)
    | inr apart ↦ w.same v (ground arith) ∙ at
  ]

  pub Writes-Live : (n i : ℕ) (xs : Cells) → Live (InBucket n i) f xs → Live (InBucket n i) g xs
  Writes-Live n i [] live = tt
  Writes-Live n i ((p, v) ∷ xs) ((d, at, in_i), nv, live) =
      let (d', at', key) = kept v d at in ((d', at', rw key in_i), nv, Writes-Live n i xs live)

  -- under another key the same value is found
  pub find-Writes :
      (P : HashmapElem → Type 0) (key : ℤ) (xs : Cells)
      → key ≢ e.key_val
      → Live P f xs
      → value_of (find g key xs) ≡ value_of (find f key xs)
  find-Writes P key [] ne live = refl
  find-Writes P key ((p, v) ∷ xs) ne ((d, at, pd), nv, live) =
      let (d', at', same_key) = kept v d at in
      let rest = find-Writes P key xs ne live in
      elim (Bool-cases (d.key_val ==ℤ key)) [
        | inl same ↦
            let dk = ==ℤ→eq d.key_val key same in
            let other : (d.key_val ==ℤ e.key_val) ≡ false = ground arith in
            rw (
              find-here f key p v xs d at same,
              find-here g key p v xs d (kept_other v d at other) same,
            )
        | inr other ↦
            rw
              (find-next f key p v xs d at other, find-next g key p v xs d' at' (rw same_key other))
              rest
      ]

  -- where the key was found at `t`, the new value is found
  pub find-written :
      (P : HashmapElem → Type 0) (xs : Cells) (d : HashmapElem)
      → Live P f xs
      → find f e.key_val xs ≡ some (t, d)
      → value_of (find g e.key_val xs) ≡ e.value
  find-written P [] d live found = cc
  find-written P ((p, v) ∷ xs) d ((c, at, pc), nv, live) found =
      elim (Bool-cases (c.key_val ==ℤ e.key_val)) [
        | inl same ↦
            let pair : Option.some (v, c) ≡ some (t, d) =
              sym (find-here f e.key_val p v xs c at same) ∙ found in
            let vt : v ≡ t = cc in
            let now : g v ≡ some e = rw vt w.here in
            let again : (e.key_val ==ℤ e.key_val) ≡ true = ground arith in
            rw (find-here g e.key_val p v xs e now again)
        | inr other ↦
            rw (find-next g e.key_val p v xs c (kept_other v c at other) other)
              (find-written P xs d live (sym (find-next f e.key_val p v xs c at other) ∙ found))
      ]

  -- where the key was not found, it is found in a cell behind the others
  pub find-appended :
      (P : HashmapElem → Type 0) (xs : Cells) (q : Ptr)
      → Live P f xs
      → find f e.key_val xs ≡ none
      → value_of (find g e.key_val (xs ++ (q, t) ∷ [])) ≡ e.value
  find-appended P [] q live none_there =
      let again : (e.key_val ==ℤ e.key_val) ≡ true = ground arith in
      rw (find-here g e.key_val q t [] e w.here again)
  find-appended P ((p, v) ∷ xs) q ((c, at, pc), nv, live) none_there =
      elim (Bool-cases (c.key_val ==ℤ e.key_val)) [
        | inl same ↦
            let clash : Option.some (v, c) ≡ none =
              sym (find-here f e.key_val p v xs c at same) ∙ none_there in
            cc
        | inr other ↦
            rw (find-next g e.key_val p v (xs ++ (q, t) ∷ []) c (kept_other v c at other) other) (
              find-appended P xs q live
                (sym (find-next f e.key_val p v xs c at other) ∙ none_there))
      ]

  -- under another key that cell changes nothing
  pub find-append_other :
      (P : HashmapElem → Type 0) (key : ℤ) (xs : Cells) (q : Ptr)
      → key ≢ e.key_val
      → Live P g xs
      → find g key (xs ++ (q, t) ∷ []) ≡ find g key xs
  find-append_other P key [] q ne live = find-next g key q t [] e w.here (ground arith)
  find-append_other P key ((p, v) ∷ xs) q ne ((c, at, pc), nv, live) =
      elim (Bool-cases (c.key_val ==ℤ key)) [
        | inl same ↦
            rw (find-here g key p v xs c at same, find-here g key p v (xs ++ (q, t) ∷ []) c at same)
        | inr other ↦
            rw
              (
                find-next g key p v xs c at other,
                find-next g key p v (xs ++ (q, t) ∷ []) c at other,
              )
              (find-append_other P key xs q ne live)
      ]

  pub Live-append :
      (n i : ℕ) (xs : Cells) (q : Ptr)
      → Live (InBucket n i) f xs
      → t ≢ null
      → InBucket n i e
      → Live (InBucket n i) g (xs ++ (q, t) ∷ [])
  Live-append n i [] q live nt in_i = ((e, w.here, in_i), nt, tt)
  Live-append n i ((p, v) ∷ xs) q ((d, at, in_d), nv, live) nt in_i =
      let (d', at', key) = kept v d at in
      ((d', at', rw key in_d), nv, Live-append n i xs q live nt in_i)
