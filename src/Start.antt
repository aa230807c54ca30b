-- ===== src/Start.antt =====
-- The arguments that `main` of src/routing/router_app_vt.c gives to the thread.
pub mod Interfaces
pub mod Spinner
pub mod Prepare
pub mod Ready
use vt_mechanisms.Prelude.{ℕ, Bool, false, List, [], ◌∷◌, Option, none, some, ℤ, pos, negsuc}
use vt_mechanisms.Decimal.{◌>>=◌}
use vt_mechanisms.Router.{CommandOption, Settings, read_options, check_settings}

-- `thread_args`, less its pipes; `intf_names` is the array that the pointer leads to.
pub record ThreadArgs : Type 0 where
  pub thread_no : ℕ
  pub bind_if : List ℕ
  pub intf_names : List (List ℕ)
  pub n_intfs : ℤ
  pub is_blocked : Bool
  pub stop : Bool

-- how often a loop up to `n` runs
abbrev pub rounds : ℤ → ℕ
rounds (pos n) = n
rounds (negsuc n) = 0

unfoldable pub args_of : Settings → List (List ℕ) → Option ThreadArgs
args_of s [] = none
args_of s (name ∷ names) = some (record {
  thread_no = 0;
  bind_if = name;
  intf_names = name ∷ names;
  n_intfs = s.n_intfs;
  is_blocked = false;
  stop = false;
})
