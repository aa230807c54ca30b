-- ===== src/PktInfo/Rows.antt =====
-- `PrintData` of src/routing/pkt_info.c as a whole: its rows, one after the other.
use vt_mechanisms.Prelude.{
  ℕ, zero, suc, ◌+◌, ◌-◌, ◌%◌, ◌≤◌, ◌≡◌, refl, sym, ap, ◌∙◌, subst, false, inl, inr, Bool-cases,
  leb, List, [], ◌∷◌, ◌++◌, map, append-nil, append_assoc, ◌==◌, length, take, drop, moved, at-cons,
  at-append, take-drop, length-take, take-all, drop-all, length-drop, arith,
}
use vt_mechanisms.PktInfo.{hex_byte, shown, char_column, spaces, print_data_loop, print_data}
use vt_mechanisms.PktInfo.Dump.{
  hexes, row_end, row, rows, char_column-map, pending, round_first, round_only, run_inside,
  run_last,
}

rows-nil : (k : ℕ) → rows k [] ≡ []
rows-nil zero = refl
rows-nil (suc k) = refl

regroup : (p sp hx ha e : List ℕ) → p ++ sp ++ hx ++ (ha ++ e) ≡ p ++ (sp ++ (hx ++ ha) ++ e)
regroup p sp hx ha e = simp append_assoc refl

regroup-row : (p sp h e : List ℕ) → p ++ sp ++ h ++ e ≡ p ++ (sp ++ h ++ e)
regroup-row p sp h e = simp append_assoc refl

regroup-rows :
    (p sp hx ha e r : List ℕ)
    → p ++ sp ++ hx ++ (ha ++ (e ++ r)) ≡ p ++ (sp ++ (hx ++ ha) ++ e ++ r)
regroup-rows p sp hx ha e r = simp append_assoc refl

-- what the loop prints first where bytes are left
before : List ℕ → List ℕ → ℕ → List ℕ
before bytes [] s = []
before bytes (x ∷ xs) s = pending bytes s

before-some : (bytes bs : List ℕ) (s : ℕ) → 1 ≤ length bs → before bytes bs s ≡ pending bytes s
unfolding before
before-some bytes [] s le = absurd (omega (arith, le))
before-some bytes (x ∷ xs) s le = refl

module _ (bytes : List ℕ) (size : ℕ) where
  last_row :
      (s x : ℕ) (xs : List ℕ)
      → s % 16 ≡ 0
      → drop s bytes ≡ x ∷ xs
      → s + 1 + length xs ≡ size
      → length xs ≤ 15
      → print_data_loop bytes size s (suc (length xs)) ≡ pending bytes s ++ row (x ∷ xs)
  unfolding print_data_loop
  last_row s x [] aligned e end le =
      append-nil _
      ∙ round_only bytes size s aligned x (omega (arith, end)) e
      ∙ ap (λ h. pending bytes s ++ spaces 3 ++ h ++ row_end (x ∷ []))
          (sym (append-nil (hex_byte x)))
      ∙ regroup-row (pending bytes s) (spaces 3) (hex_byte x ++ []) (row_end (x ∷ []))
  last_row s x (y ∷ ys) aligned e end le =
      ap (λ h. h ++ print_data_loop bytes size (s + 1) (suc (length ys)))
        (round_first bytes size s aligned x (y ∷ ys) (omega (arith, end)) e)
      ∙ ap (λ h. pending bytes s ++ spaces 3 ++ hex_byte x ++ h)
          (run_last bytes size s aligned ys (x ∷ y ∷ ys) y 1 (omega arith) (omega (arith, le))
            (omega (arith, end)) (at-cons bytes s x (y ∷ ys) e).1 e (omega arith))
      ∙ regroup (pending bytes s) (spaces 3) (hex_byte x) (hexes (y ∷ ys)) (row_end (x ∷ y ∷ ys))

  -- the end of a full row, which the loop prints before the next one
  pending-row :
      (s : ℕ) (bs t : List ℕ)
      → drop s bytes ≡ bs ++ t
      → length bs ≡ 16
      → pending bytes (s + 16) ≡ row_end bs
  unfolding pending spaces
  pending-row s bs t e len =
      let far : (s + 16 == 0) ≡ false = ground arith in
      let back : s + 16 - 16 ≡ s = omega arith in
      let columns : char_column bytes s 16 ≡ map shown bs =
        subst (λ n. char_column bytes s n ≡ map shown bs) len (char_column-map bytes s bs t e) in
      rw (far, back, columns, len) refl

  full_row :
      (s x : ℕ) (a b : List ℕ)
      → s % 16 ≡ 0
      → drop s bytes ≡ x ∷ (a ++ b)
      → s + 16 + length b ≡ size
      → length a ≡ 15
      → 1 ≤ length b
      → print_data_loop bytes size s (suc (length a + length b))
        ≡ pending bytes s
          ++ spaces 3
          ++ hex_byte x
          ++ (hexes a ++ print_data_loop bytes size (s + 16) (length b))
  unfolding print_data_loop
  full_row s x a b aligned e end len some_left =
      ap (λ h. h ++ print_data_loop bytes size (s + 1) (length a + length b))
        (round_first bytes size s aligned x (a ++ b) (omega (arith, end, some_left)) e)
      ∙ ap (λ h. pending bytes s ++ spaces 3 ++ hex_byte x ++ h)
          (run_inside bytes size s aligned a b 1 (length b) (omega arith) (omega (arith, len))
            (omega (arith, end, len, some_left)) (at-cons bytes s x (a ++ b) e).1)
      ∙ ap
          (λ j.
            pending bytes s
            ++ spaces 3
            ++ hex_byte x
            ++ (hexes a ++ print_data_loop bytes size j (length b)))
          (omega (arith, len))

  loop-nil : (s : ℕ) → print_data_loop bytes size s 0 ≡ []
  unfolding print_data_loop
  loop-nil s = refl

  rest_lem :
      (k s : ℕ) (bs : List ℕ)
      → s % 16 ≡ 0
      → drop s bytes ≡ bs
      → s + length bs ≡ size
      → length bs ≤ k
      → print_data_loop bytes size s (length bs) ≡ before bytes bs s ++ rows k bs
  unfolding before
  rest_lem k s [] aligned e end le = loop-nil s ∙ sym (rows-nil k)
  rest_lem zero s (x ∷ xs) aligned e end le = absurd (omega (arith, le))
  rest_lem (suc k) s (x ∷ xs) aligned e end le = elim (Bool-cases (leb (length xs) 15)) [
    | inl short ↦
        let fits : length xs ≤ 15 = ground arith in
        rw (take-all 15 xs fits, drop-all 15 xs fits, rows-nil k)
          (last_row s x xs aligned e (omega (arith, end)) fits
            ∙ ap (λ r. pending bytes s ++ r) (sym (append-nil (row (x ∷ xs)))))
    | inr long ↦
        let a = take 15 xs in
        let b = drop 15 xs in
        let more : 16 ≤ length xs = ground arith in
        let len = length-take 15 xs (omega arith) in
        let len' = length-drop 15 xs in
        let parts = take-drop 15 xs in
        let e' : drop s bytes ≡ x ∷ (a ++ b) = e ∙ ap (λ l. x ∷ l) (sym parts) in
        let whole : suc (length xs) ≡ suc (length a + length b) = omega (arith, len, len', more) in
        let there = at-append bytes s (x ∷ a) b e' in
        let next =
          rest_lem k (s + 16) b (omega (arith, aligned))
            (moved bytes b (s + suc (length a)) (s + 16) (omega (arith, len)) there)
            (omega (arith, end, len', more)) (omega (arith, le, len')) in
        ap (λ n. print_data_loop bytes size s n) whole
        ∙ full_row s x a b aligned e' (omega (arith, end, len', more)) len
            (omega (arith, len', more))
        ∙ ap (λ r. pending bytes s ++ spaces 3 ++ hex_byte x ++ (hexes a ++ r))
            (next
              ∙ ap (λ p. p ++ rows k b)
                  (before-some bytes b (s + 16) (omega (arith, len', more))
                    ∙ pending-row s (x ∷ a) b e' (omega (arith, len))))
        ∙ regroup-rows (pending bytes s) (spaces 3) (hex_byte x) (hexes a) (row_end (x ∷ a))
            (rows k b)
  ]

before-nil : (bytes bs : List ℕ) → before bytes bs 0 ≡ []
unfolding before pending
before-nil bytes [] = refl
before-nil bytes (x ∷ xs) = refl

-- A buffer of just the size that is to be printed.
pub print_data-full : (bytes : List ℕ) → print_data bytes (length bytes) ≡ rows (length bytes) bytes
unfolding print_data
print_data-full bytes =
    rest_lem bytes (length bytes) (length bytes) 0 bytes refl refl (omega arith) (omega arith)
    ∙ ap (λ p. p ++ rows (length bytes) bytes) (before-nil bytes bytes)
