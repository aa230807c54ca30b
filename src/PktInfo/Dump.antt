-- ===== src/PktInfo/Dump.antt =====
-- The hex dump of `PrintData` of src/routing/pkt_info.c against a dump row by row.
use vt_mechanisms.Prelude.{
  ℕ, zero, suc, ◌+◌, ◌-◌, ◌*◌, ◌%◌, ◌≤◌, ◌<◌, ◌≡◌, refl, sym, ap, ◌∙◌, Bool, true, false, not, ◌&&◌,
  List, [], ◌∷◌, ◌++◌, map, append-nil, append_assoc, ◌==◌, if◌then◌else◌, length, take, drop,
  moved, at-cons, get_or-at, arith,
}
use vt_mechanisms.PktInfo.{hex_byte, shown, char_column, spaces, print_data_round, print_data_loop}

abbrev pub hexes : List ℕ → List ℕ
hexes [] = []
hexes (c ∷ s) = hex_byte c ++ hexes s

-- the end of a row: blanks for the bytes that it lacks, and its characters
abbrev pub row_end : List ℕ → List ℕ
row_end s = spaces (3 * (16 - length s)) ++ spaces 9 ++ map shown s ++ 10 ∷ []

abbrev pub row : List ℕ → List ℕ
row s = spaces 3 ++ hexes s ++ row_end s

-- The bytes sixteen to a row; the number of bytes is enough fuel.
abbrev pub rows : ℕ → List ℕ → List ℕ
rows zero s = []
rows (suc k) [] = []
rows (suc k) (c ∷ s) = row (take 16 (c ∷ s)) ++ rows k (drop 16 (c ∷ s))

pub char_column-map :
    (bytes : List ℕ) (from : ℕ) (xs t : List ℕ)
    → drop from bytes ≡ xs ++ t
    → char_column bytes from (length xs) ≡ map shown xs
unfolding char_column
char_column-map bytes from [] t e = refl
char_column-map bytes from (x ∷ xs) t e = rw (get_or-at bytes from x 0 (xs ++ t) e) (
    ap (λ s. shown x ∷ s)
      (char_column-map bytes (from + 1) xs t (at-cons bytes from x (xs ++ t) e).1))

and-true : (b : Bool) → (b && true) ≡ b
and-true true = refl
and-true false = refl

-- the characters of the row before the one at `s`, which the loop prints there
unfoldable pub pending : List ℕ → ℕ → List ℕ
pending bytes s = if not (s == 0) then spaces 9 ++ char_column bytes (s - 16) 16 ++ 10 ∷ [] else []

module _ (bytes : List ℕ) (size s : ℕ) (aligned : s % 16 ≡ 0) where
  -- a byte inside a row
  round_inside :
      (r x : ℕ) (t : List ℕ)
      → 1 ≤ r
      → r ≤ 15
      → s + r + 1 < size
      → drop (s + r) bytes ≡ x ∷ t
      → print_data_round bytes size (s + r) ≡ hex_byte x
  unfolding print_data_round
  round_inside r x t le le' lt e =
      let a : (s + r == 0) ≡ false = ground (arith, le) in
      let b : ((s + r) % 16 == 0) ≡ false = ground (arith, le, le', aligned) in
      let c : (s + r + 1 == size) ≡ false = ground (arith, lt) in
      rw (a, b, c, get_or-at bytes (s + r) x 0 t e) (append-nil (hex_byte x))

  -- the last byte of all, not the first of its row
  round_last :
      (r x : ℕ) (t bs : List ℕ)
      → 1 ≤ r
      → r ≤ 15
      → s + r + 1 ≡ size
      → drop (s + r) bytes ≡ x ∷ t
      → drop s bytes ≡ bs
      → length bs ≡ r + 1
      → print_data_round bytes size (s + r) ≡ hex_byte x ++ row_end bs
  unfolding print_data_round
  round_last r x t bs le le' last e whole len =
      let a : (s + r == 0) ≡ false = ground (arith, le) in
      let b : ((s + r) % 16 == 0) ≡ false = ground (arith, le, le', aligned) in
      let c : (s + r + 1 == size) ≡ true = ground (arith, last) in
      let m : (s + r) % 16 ≡ r = omega (arith, le', aligned) in
      let back : s + r - r ≡ s = omega arith in
      let n : 3 * (15 - r) ≡ 3 * (16 - length bs) = omega (arith, len) in
      rw
        (
          a,
          b,
          c,
          get_or-at bytes (s + r) x 0 t e,
          m,
          back,
          n,
          ← len,
          char_column-map bytes s bs [] (whole ∙ sym (append-nil bs)),
        )
        refl

  -- the first byte of a row
  pub round_first :
      (x : ℕ) (t : List ℕ)
      → s + 1 < size
      → drop s bytes ≡ x ∷ t
      → print_data_round bytes size s ≡ pending bytes s ++ spaces 3 ++ hex_byte x
  unfolding print_data_round pending
  round_first x t lt e =
      let b : (s % 16 == 0) ≡ true = ground (arith, aligned) in
      let c : (s + 1 == size) ≡ false = ground (arith, lt) in
      rw (b, c, get_or-at bytes s x 0 t e, and-true) (append-nil _)

  pub round_only :
      (x : ℕ)
      → s + 1 ≡ size
      → drop s bytes ≡ x ∷ []
      → print_data_round bytes size s
        ≡ pending bytes s ++ spaces 3 ++ hex_byte x ++ row_end (x ∷ [])
  unfolding print_data_round pending
  round_only x last e =
      let b : (s % 16 == 0) ≡ true = ground (arith, aligned) in
      let c : (s + 1 == size) ≡ true = ground (arith, last) in
      let z : s - 0 ≡ s = omega arith in
      rw (b, c, and-true, aligned, z, get_or-at bytes s x 0 [] e) refl

  -- bytes inside a row, none of them the last of all
  pub run_inside :
      (xs t : List ℕ) (r left : ℕ)
      → 1 ≤ r
      → r + length xs ≤ 16
      → s + r + length xs < size
      → drop (s + r) bytes ≡ xs ++ t
      → print_data_loop bytes size (s + r) (length xs + left)
        ≡ hexes xs ++ print_data_loop bytes size (s + r + length xs) left
  unfolding print_data_loop
  run_inside [] t r left le le' lt e =
      ap (λ n. print_data_loop bytes size (s + r) n) (omega arith)
      ∙ ap (λ j. print_data_loop bytes size j left) (omega arith)
  run_inside (x ∷ xs) t r left le le' lt e =
      let next =
        moved bytes (xs ++ t) (s + r + 1) (s + (r + 1)) (omega arith)
          (at-cons bytes (s + r) x (xs ++ t) e).1 in
      let more =
        run_inside xs t (r + 1) left (omega arith) (omega (arith, le')) (omega (arith, lt)) next in
      let one_more : suc (length xs) + left ≡ suc (length xs + left) = omega arith in
      let behind = λ (j : ℕ). print_data_loop bytes size j (length xs + left) in
      ap (λ n. print_data_loop bytes size (s + r) n) one_more
      ∙ ap (λ h. h ++ behind (s + r + 1))
          (round_inside r x (xs ++ t) le (omega (arith, le')) (omega (arith, lt)) e)
      ∙ ap (λ j. hex_byte x ++ behind j) (omega arith)
      ∙ ap (λ l. hex_byte x ++ l) more
      ∙ sym (append_assoc (hex_byte x) (hexes xs) _)
      ∙ ap (λ j. hex_byte x ++ hexes xs ++ print_data_loop bytes size j left) (omega arith)

  -- the rest of the last row
  pub run_last :
      (xs bs : List ℕ) (x r : ℕ)
      → 1 ≤ r
      → r + length xs ≤ 15
      → s + r + 1 + length xs ≡ size
      → drop (s + r) bytes ≡ x ∷ xs
      → drop s bytes ≡ bs
      → length bs ≡ r + 1 + length xs
      → print_data_loop bytes size (s + r) (suc (length xs)) ≡ hexes (x ∷ xs) ++ row_end bs
  unfolding print_data_loop
  run_last [] bs x r le le' last e whole len =
      append-nil _
      ∙ round_last r x [] bs le (omega (arith, le')) (omega (arith, last)) e whole
          (omega (arith, len))
      ∙ ap (λ h. h ++ row_end bs) (sym (append-nil (hex_byte x)))
  run_last (y ∷ xs) bs x r le le' last e whole len =
      let next =
        moved bytes (y ∷ xs) (s + r + 1) (s + (r + 1)) (omega arith)
          (at-cons bytes (s + r) x (y ∷ xs) e).1 in
      let more =
        run_last xs bs y (r + 1) (omega arith) (omega (arith, le')) (omega (arith, last)) next whole
          (omega (arith, len)) in
      let ahead : s + r + 1 ≡ s + (r + 1) = omega arith in
      let behind = λ (j : ℕ). print_data_loop bytes size j (suc (length xs)) in
      ap (λ h. h ++ behind (s + r + 1))
        (round_inside r x (y ∷ xs) le (omega (arith, le')) (omega (arith, last)) e)
      ∙ ap (λ j. hex_byte x ++ behind j) ahead
      ∙ ap (λ l. hex_byte x ++ l) more
      ∙ sym (append_assoc (hex_byte x) (hexes (y ∷ xs)) (row_end bs))
