-- ===== src/Sending/ReadAll.antt =====
-- `read_n` of src/routing/utils.c over short reads.
use vt_mechanisms.Prelude.{
  ℕ, zero, suc, ◌-◌, ◌≤◌, ◌<◌, ◌≡◌, ap, ◌∙◌, false, List, [], ◌∷◌, ◌++◌, ◌==◌, length, arith,
  append-nil, append_assoc, map,
}
use vt_mechanisms.Sending.{stored, returned, read_n_loop, read_n}

abbrev pub concat : List (List ℕ) → List ℕ
concat [] = []
concat (c ∷ cs) = c ++ concat cs

-- the pieces are not empty and together have as many bytes as are left
abbrev pub Pieces : ℕ → List (List ℕ) → Type 0
Pieces left [] = left ≡ 0
Pieces left (c ∷ cs) = (0 < length c) × (length c ≤ left) × Pieces (left - length c) cs

read_n_loop-concat :
    (cs : List (List ℕ)) (n left : ℕ) (buf : List ℕ)
    → Pieces left cs
    → read_n_loop (map stored cs) n left buf ≡ returned n (buf ++ concat cs)
unfolding read_n_loop
read_n_loop-concat [] n zero buf ps = rw append-nil
read_n_loop-concat [] n (suc left) buf ps = absurd (omega arith)
read_n_loop-concat (c ∷ cs) n zero buf ps = absurd (omega arith)
read_n_loop-concat (c ∷ cs) n (suc left) buf ps =
    let some_byte : (length c == 0) ≡ false = ground (arith, ps.0) in
    rw some_byte (
      read_n_loop-concat cs n (suc left - length c) (buf ++ c) ps.2
      ∙ ap (returned n) (append_assoc buf c (concat cs)))

-- When the calls of `read` return pieces that are not empty and together have `n` bytes, `read_n`
-- returns `n` and has stored the pieces one behind the other.
pub read_n-concat :
    (cs : List (List ℕ)) (n : ℕ) → Pieces n cs → read_n (map stored cs) n ≡ returned n (concat cs)
unfolding read_n
read_n-concat cs n ps = read_n_loop-concat cs n n [] ps
