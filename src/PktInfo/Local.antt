-- ===== src/PktInfo/Local.antt =====
-- `PrintData` of src/routing/pkt_info.c reads no byte behind the ones that it is to print.
use vt_mechanisms.Prelude.{
  subst, ℕ, zero, suc, ◌+◌, ◌-◌, ◌%◌, ◌≤◌, ◌<◌, ◌≡◌, refl, sym, ap, ◌∙◌, Bool, true, false, not,
  ◌&&◌, List, [], ◌∷◌, ◌++◌, ◌==◌, length, take, get_or, if◌then◌else◌, length-take, arith,
}
use vt_mechanisms.PktInfo.{char_column, spaces, print_data_round, print_data_loop, print_data}
use vt_mechanisms.PktInfo.Dump.{rows}
use vt_mechanisms.PktInfo.Rows.{print_data-full}

get_or-take : (n : ℕ) (s : List ℕ) (i : ℕ) → i < n → get_or (take n s) i 0 ≡ get_or s i 0
get_or-take zero s i lt = absurd (omega (arith, lt))
get_or-take (suc n) [] i lt = refl
get_or-take (suc n) (x ∷ s) zero lt = refl
get_or-take (suc n) (x ∷ s) (suc i) lt = get_or-take n s i (omega (arith, lt))

module _ (a b : List ℕ) (size : ℕ) (same : (i : ℕ) → i < size → get_or a i 0 ≡ get_or b i 0) where
  char_column-same :
      (from count : ℕ) → from + count ≤ size → char_column a from count ≡ char_column b from count
  unfolding char_column
  char_column-same from zero le = refl
  char_column-same from (suc count) le =
      rw (same from (omega (arith, le)), char_column-same (from + 1) count (omega (arith, le))) refl

  old-same :
      (i : ℕ) (t : Bool)
      → (t ≡ true → 16 ≤ i)
      → i ≤ size
      → (if t then spaces 9 ++ char_column a (i - 16) 16 ++ 10 ∷ [] else [])
        ≡ (if t then spaces 9 ++ char_column b (i - 16) 16 ++ 10 ∷ [] else [])
  old-same i true le le' =
      ap (λ c. spaces 9 ++ c ++ 10 ∷ [])
        (char_column-same (i - 16) 16 (omega (arith, le refl, le')))
  old-same i false le le' = refl

  round-same : (i : ℕ) → i < size → print_data_round a size i ≡ print_data_round b size i
  unfolding print_data_round
  round-same i lt =
      rw
        (
          same i lt,
          char_column-same (i - i % 16) (i % 16 + 1) (omega (arith, lt)),
          old-same i (not (i == 0) && (i % 16 == 0)) (λ e. ground (arith, e)) (omega (arith, lt)),
        )
        refl

  loop-same :
      (i left : ℕ) → i + left ≤ size → print_data_loop a size i left ≡ print_data_loop b size i left
  unfolding print_data_loop
  loop-same i zero le = refl
  loop-same i (suc left) le =
      rw (round-same i (omega (arith, le)), loop-same (i + 1) left (omega (arith, le))) refl

-- `PrintData` prints the first `size` bytes of a buffer that has so many as rows of sixteen: the
-- bytes in hex, blanks in place of those that the last row lacks, and the row's characters.
pub print_data-rows :
    (bytes : List ℕ) (size : ℕ)
    → size ≤ length bytes
    → print_data bytes size ≡ rows size (take size bytes)
unfolding print_data
print_data-rows bytes size le =
    let len = length-take size bytes le in
    loop-same bytes (take size bytes) size (λ i lt. sym (get_or-take size bytes i lt)) 0 size
      (omega arith)
    ∙ subst (λ n. print_data_loop (take size bytes) n 0 n ≡ rows n (take size bytes)) len
        (print_data-full (take size bytes))
