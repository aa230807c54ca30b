-- ===== src/Start/Interfaces.antt =====
-- The interfaces that the thread is given.
use vt_mechanisms.Prelude.{
  ℕ, zero, suc, ◌+◌, ◌≤◌, ◌≡◌, refl, sym, ◌∙◌, ap, subst, false, Bool-cases, inl, inr, ◌⊎◌, List,
  [], ◌∷◌, Option, none, some, ℤ, pos, negsuc, arith, length, get_elem?, ltb, leb_ℤ,
}
use vt_mechanisms.Decimal.{◌>>=◌}
use vt_mechanisms.Router.{Settings, check_settings, interface_names, n_max_taps}
use vt_mechanisms.Start.{ThreadArgs, rounds, args_of}

-- The first interface is the one to bind to, there is at least one and at most 100, and none runs.
pub record Given (a : ThreadArgs) : Type 0 where
  pub number : a.n_intfs ≡ pos (length a.intf_names)
  pub bound : get_elem? a.intf_names 0 ≡ some a.bind_if
  pub most : length a.intf_names ≤ n_max_taps
  pub running : a.is_blocked ≡ false
  pub stopping : a.stop ≡ false

pub bind_some :
    {A B : Type 0} (o : Option A) (f : A → Option B) (b : B)
    → (o >>= f) ≡ some b
    → (a : A) × (o ≡ some a) × (f a ≡ some b)
bind_some none f b e = cc
bind_some (some a) f b e = (a, refl, e)

or_default : {A : Type 0} → A → Option A → A
or_default b none = b
or_default b (some a) = a

pub some_or : {A : Type 0} (b x y : A) → some x ≡ some y → x ≡ y
unfolding or_default
some_or b x y e = ap (or_default b) e

nil_or_cons : {A : Type 0} (xs : List A) → (xs ≡ []) ⊎ ((x : A) × (ys : List A) × (xs ≡ x ∷ ys))
nil_or_cons [] = inl refl
nil_or_cons (x ∷ xs) = inr (x, xs, refl)

pub check_settings-some :
    (s s' : Settings) (left : ℕ)
    → check_settings s left ≡ some s'
    → leb_ℤ s'.n_intfs (pos 0) ≡ false
unfolding check_settings
check_settings-some s s' left e = elim (Bool-cases (ltb 0 left)) [
  | inl more ↦ ground (arith, more)
  | inr all ↦ elim (nil_or_cons s.switch_name) [
    | inl e₀ ↦ ground (arith, all, e₀)
    | inr (c, w, e₁) ↦ elim (Bool-cases (leb_ℤ s.n_intfs (pos 0))) [
      | inl none_given ↦ ground (arith, all, e₁, none_given)
      | inr some_given ↦
          let plain : check_settings s left ≡ some s = ground (arith, all, e₁, some_given) in
          subst (λ x. leb_ℤ x.n_intfs (pos 0) ≡ false) (some_or s' s s' (sym plain ∙ e)) some_given
    ]
  ]
]

pub length-interface_names :
    (switch_name : List ℕ) (n start : ℕ) → length (interface_names switch_name n start) ≡ n
unfolding interface_names
length-interface_names switch_name zero start = refl
length-interface_names switch_name (suc n) start =
    omega (arith, length-interface_names switch_name n (start + 1))

pub positive-rounds : (n : ℤ) → leb_ℤ n (pos 0) ≡ false → n ≡ pos (rounds n)
positive-rounds (pos n) e = refl
positive-rounds (negsuc n) e = absurd (ground arith)

pub args_of-Given :
    (s : Settings) (names : List (List ℕ)) (a : ThreadArgs)
    → leb_ℤ s.n_intfs (pos 0) ≡ false
    → length names ≡ rounds s.n_intfs
    → rounds s.n_intfs ≤ n_max_taps
    → args_of s names ≡ some a
    → Given a
unfolding args_of
args_of-Given s [] a positive l most e = cc
args_of-Given s (name ∷ names) a positive l most e = subst Given (some_or a _ a e) (record {
  number = positive-rounds s.n_intfs positive ∙ ap pos (sym l);
  bound = refl;
  most = rw l most;
  running = refl;
  stopping = refl;
})
