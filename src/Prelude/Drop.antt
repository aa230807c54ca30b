-- ===== src/Prelude/Drop.antt =====
-- What stands in a list at an index, told by what is left when that many elements are dropped.
use Prim.Native.Nat.{ℕ, zero, suc, ◌+◌, ◌≤◌}
use mathlib.Core.Path.{◌≡◌, refl, ap, subst}
use mathlib.Core.List.{List, [], ◌∷◌, ◌++◌}
use mathlib.Core.Option.{Option, none, some}
use native.Mathlib.Omega.{arith}
use vt_mechanisms.Prelude.Lists.{length, get_elem?, get_or, take, drop}

abbrev head? : {A : Type 0} → List A → Option A
head? [] = none
head? (x ∷ xs) = some x

abbrev tail : {A : Type 0} → List A → List A
tail [] = []
tail (x ∷ xs) = xs

pub moved : {A : Type 0} (s t : List A) (i j : ℕ) → i ≡ j → drop i s ≡ t → drop j s ≡ t
moved s t i j e h = subst (λ j. drop j s ≡ t) e h

pub at-cons :
    {A : Type 0} (s : List A) (i : ℕ) (c : A) (t : List A)
    → drop i s ≡ c ∷ t
    → (get_elem? s i ≡ some c) × (drop (i + 1) s ≡ t)
at-cons [] zero c t e = absurd (cc)
at-cons [] (suc i) c t e = absurd (cc)
at-cons (x ∷ s) zero c t e = (ap head? e, ap tail e)
at-cons (x ∷ s) (suc i) c t e =
    let (f, g) = at-cons s i c t e in (f, moved (x ∷ s) t (suc (i + 1)) (suc i + 1) (omega arith) g)

pub at-append :
    {A : Type 0} (s : List A) (i : ℕ) (xs t : List A)
    → drop i s ≡ xs ++ t
    → drop (i + length xs) s ≡ t
at-append s i [] t e = moved s t i (i + 0) (omega arith) e
at-append s i (x ∷ xs) t e =
    moved s t (i + 1 + length xs) (i + suc (length xs)) (omega arith)
      (at-append s (i + 1) xs t (at-cons s i x (xs ++ t) e).1)

pub get_or-at :
    {A : Type 0} (s : List A) (i : ℕ) (c d : A) (t : List A) → drop i s ≡ c ∷ t → get_or s i d ≡ c
get_or-at [] zero c d t e = absurd (cc)
get_or-at [] (suc i) c d t e = absurd (cc)
get_or-at (x ∷ s) zero c d t e = ap (λ xs. get_or xs 0 d) e
get_or-at (x ∷ s) (suc i) c d t e = get_or-at s i c d t e

pub take-drop : {A : Type 0} (n : ℕ) (xs : List A) → take n xs ++ drop n xs ≡ xs
take-drop zero xs = refl
take-drop (suc n) [] = refl
take-drop (suc n) (x ∷ xs) = ap (λ ys. x ∷ ys) (take-drop n xs)

pub length-take : {A : Type 0} (n : ℕ) (xs : List A) → n ≤ length xs → length (take n xs) ≡ n
length-take zero xs le = refl
length-take (suc n) [] le = omega (arith, le)
length-take (suc n) (x ∷ xs) le = ap suc (length-take n xs (omega (arith, le)))

-- a list that is not longer is taken whole
pub take-all : {A : Type 0} (n : ℕ) (xs : List A) → length xs ≤ n → take n xs ≡ xs
take-all zero [] le = refl
take-all zero (x ∷ xs) le = absurd (omega (arith, le))
take-all (suc n) [] le = refl
take-all (suc n) (x ∷ xs) le = ap (λ ys. x ∷ ys) (take-all n xs (omega (arith, le)))

pub drop-all : {A : Type 0} (n : ℕ) (xs : List A) → length xs ≤ n → drop n xs ≡ []
drop-all zero [] le = refl
drop-all zero (x ∷ xs) le = absurd (omega (arith, le))
drop-all (suc n) [] le = refl
drop-all (suc n) (x ∷ xs) le = drop-all n xs (omega (arith, le))
