-- ===== src/Results.antt =====
-- `write_results` of src/routing/router_app_vt.c, by what its calls of `write` return.
use vt_mechanisms.Prelude.{
  take-drop, ℕ, zero, suc, ◌-◌, ◌<◌, ◌≡◌, refl, ap, sym, false, List, [], ◌∷◌, ◌++◌, Option, none,
  some, ◌==◌, if◌then◌else◌, length, take, drop, replicate, length-drop, ℤ, arith, append-nil,
}
use vt_mechanisms.Command.{results_text}

-- The loop has ended, has met an error, or goes on with the text that is left. `written` is what
-- the calls have written.
pub data Writing : Type 0 where
  complete failed : (written : List ℕ) → Writing
  going_on : (left written : List ℕ) → Writing

-- The loop: `ret` is what the last call returned, and `none` a result below 0. A call writes as
-- many bytes of `ptr` as it returns.
unfoldable pub write_loop : List (Option ℕ) → (len ret : ℕ) → (ptr written : List ℕ) → Writing
write_loop [] len ret ptr written = if ret == len then complete written else going_on ptr written
write_loop (none ∷ rets) len ret ptr written =
    if ret == len then complete written else failed written
write_loop (some r ∷ rets) len ret ptr written =
    let rest = write_loop rets len r (drop r ptr) (written ++ take r ptr) in
    if ret == len then complete written else rest

unfoldable pub write_results : List (Option ℕ) → ℤ → Writing
unfolding write_loop results_text
write_results rets advance_err =
    let command = results_text advance_err in write_loop rets (length command) 0 command []

-- With nothing left the calls return 0, which is not the length that the loop waits for.
idle :
    (k len ret : ℕ) (written : List ℕ)
    → (ret == len) ≡ false
    → (0 == len) ≡ false
    → write_loop (replicate k (some 0)) len ret [] written ≡ going_on [] written
unfolding write_loop
idle zero len ret written apart none_left = rw apart
idle (suc k) len ret written apart none_left =
    rw (apart, append-nil) (idle k len 0 written none_left none_left)

take-length : (xs : List ℕ) → take (length xs) xs ≡ xs
take-length [] = refl
take-length (x ∷ xs) = ap (λ ys. x ∷ ys) (take-length xs)

drop-length : (xs : List ℕ) → drop (length xs) xs ≡ []
drop-length [] = refl
drop-length (x ∷ xs) = drop-length xs

short_write :
    (command : List ℕ) (r k : ℕ)
    → 0 < r
    → r < length command
    → write_loop
        (some r ∷ some (length command - r) ∷ replicate k (some 0))
        (length command)
        0
        command
        []
      ≡ going_on [] command
unfolding write_loop
short_write command r k positive short =
    let len = length command in
    let rest = drop r command in
    let none_left : (0 == len) ≡ false = ground arith in
    let apart : (r == len) ≡ false = ground arith in
    let left : len - r ≡ length rest = sym (length-drop r command) in
    let apart' : (length rest == len) ≡ false = ground (arith, left) in
    rw (none_left, apart, left, drop-length rest, take-length rest, take-drop r command)
      (idle k len (length rest) command apart' none_left)

-- When the first call of `write` writes a part of the text and the second the rest of it, then
-- however often the loop goes round, with nothing left to write, it has not ended.
pub write_results-short :
    (advance_err : ℤ) (r k : ℕ)
    → 0 < r
    → r < length (results_text advance_err)
    → write_results
        (some r ∷ some (length (results_text advance_err) - r) ∷ replicate k (some 0))
        advance_err
      ≡ going_on [] (results_text advance_err)
unfolding write_results
write_results-short advance_err r k positive short =
    short_write (results_text advance_err) r k positive short
