-- ===== src/Command.antt =====
-- The commands that the TimeKeeper module hands to src/routing/router_app_vt.c: a text of tuples
-- `|pid,instructions`, or `STOP`. A buffer is the list of its bytes; `none` is a read outside it.
pub mod Total
pub mod Ends
pub mod Reads
pub mod Tuple
pub mod RoundTrip
use vt_mechanisms.Prelude.{
  ℕ, zero, suc, ◌+◌, ◌-◌, ◌*◌, ◌/◌, Bool, true, false, ◌&&◌, ◌||◌, not, List, [], ◌∷◌, ◌++◌, Option,
  none, some, ◌==◌, leb, if◌then◌else◌, get_elem?, length, ℤ, pos, negsuc, ◌==ℤ◌, ltb_ℤ, ◌+ℤ◌, ◌-ℤ◌,
}
use vt_mechanisms.Word.{signed}
use vt_mechanisms.Decimal.{is_digit, ◌>>=◌, str_to_i, print_int}

-- The index `i`, counted from `base`, at which the digits from `base + 1` on end.
skip_digits : ℕ → List ℕ → ℕ → ℕ → Option ℕ
skip_digits zero s base i = none
skip_digits (suc k) s base i = do
  c ← get_elem? s (base + i)
  let rest = skip_digits k s base (i + 1)
  if is_digit c then rest else some i

-- `get_next_value(s + base)`
unfoldable pub get_next_value : List ℕ → ℕ → Option ℤ
unfolding skip_digits
get_next_value s base = do
  i ← skip_digits (suc (length s)) s base 1
  c ← get_elem? s (base + i)
  if c == 0
      then some (negsuc 0)
      else (do d ← get_elem? s (base + i + 1); some (if d == 0 then negsuc 0 else pos (i + 1)))

-- `strcmp(s + i, text) == 0`
str_eq_at : List ℕ → List ℕ → ℕ → Option Bool
str_eq_at [] s i = do c ← get_elem? s i; some (c == 0)
str_eq_at (x ∷ xs) s i = do c ← get_elem? s i; if c == x then str_eq_at xs s (i + 1) else some false

abbrev pub stop_text : List ℕ
stop_text = b'S' ∷ b'T' ∷ b'O' ∷ b'P' ∷ []

-- What `get_next_command_tuple` returns, with what it stores through its two pointers.
pub record CommandTuple : Type 0 where
  pub resume_ptr : ℤ
  pub pid : ℤ
  pub n_insns : ℕ

abbrev pub no_tuple : CommandTuple
no_tuple = record { resume_ptr = negsuc 0; pid = pos 0; n_insns = 0 }

abbrev pub stop_tuple : CommandTuple
stop_tuple = record { resume_ptr = negsuc 0; pid = negsuc 0; n_insns = 0 }

tuple_at : List ℕ → ℕ → Option CommandTuple
tuple_at buffer i = do
  bar ← get_elem? buffer i
  if not (bar == b'|') || (bar == 0) then some no_tuple else (do
    pid ← str_to_i buffer (i + 1)
    next ← get_next_value buffer i
    elim next [
      | negsuc _ ↦ some no_tuple
      | pos step ↦ (do
        let nxt_idx = step + i
        n_insns ← str_to_i buffer nxt_idx
        last ← get_next_value buffer nxt_idx
        some (record {
          resume_ptr = pos nxt_idx +ℤ last -ℤ pos 1;
          pid = signed pid;
          n_insns = n_insns;
        }))
    ])

-- The comparison with "STOP" reads the buffer before `resume_ptr` is tested.
unfoldable pub get_next_command_tuple : List ℕ → ℤ → Option CommandTuple
unfolding str_eq_at tuple_at str_to_i get_next_value ◌+ℤ◌ ◌-ℤ◌ signed
get_next_command_tuple buffer (negsuc _) = none
get_next_command_tuple buffer (pos i) = do
  stop ← str_eq_at stop_text buffer i
  if stop then some stop_tuple else tuple_at buffer i

-- `(int) n_insns/1000`: the quotient of the `int` with that bit pattern, rounded towards zero
unfoldable pub advance_of : ℕ → ℤ
unfolding signed ◌-ℤ◌
advance_of n = elim (signed n) [ pos m ↦ pos (m / 1000) | negsuc m ↦ pos 0 -ℤ pos (suc m / 1000) ]

pub data Advance : Type 0 where
  stop : Advance
  advance : ℤ → Advance

-- The loop over the tuples. `fuel` bounds the rounds; the outer option is for a read outside the
-- buffer or too little fuel.
command_loop : ℕ → List ℕ → ℤ → ℤ → Option Advance
command_loop zero buffer tail_ptr per_round_advance = none
command_loop (suc k) buffer tail_ptr per_round_advance = do
  t ← get_next_command_tuple buffer tail_ptr
  let rest = command_loop k buffer t.resume_ptr (advance_of t.n_insns)
  if (t.resume_ptr ==ℤ negsuc 0) && (t.pid ==ℤ negsuc 0)
      then some stop
      else if t.pid ==ℤ pos 0
      then some (advance per_round_advance)
      else if t.resume_ptr ==ℤ negsuc 0
      then some (advance (advance_of t.n_insns))
      else rest

-- What both callers do with the outcome: -1 stops the experiment.
unfoldable pub clamp_advance : Advance → ℤ
clamp_advance stop = negsuc 0
clamp_advance (advance a) = if ltb_ℤ a (pos 0) then pos 100 else a

unfoldable pub parse_commands : List ℕ → Option ℤ
unfolding command_loop clamp_advance get_next_command_tuple advance_of
parse_commands buffer = do
  a ← command_loop (length buffer + 2) buffer (pos 0) (pos 100)
  some (clamp_advance a)

-- `reads` are the outcomes of the calls of `read`: `none` for -1, or the buffer that it leaves.
unfoldable pub get_time_to_advance : List (Option (List ℕ)) → Option ℤ
unfolding parse_commands
get_time_to_advance [] = none
get_time_to_advance (none ∷ reads) = get_time_to_advance reads
get_time_to_advance (some nxt_cmd ∷ reads) = parse_commands nxt_cmd

-- "J,<advance_err>," as `sprintf` leaves it
unfoldable pub results_text : ℤ → List ℕ
unfolding print_int
results_text advance_err = b'J' ∷ b',' ∷ print_int advance_err ++ b',' ∷ []

-- `ioctl` takes the buffer and gives its result and the buffer that it leaves.
unfoldable pub ack_and_get_next_command : (List ℕ → ℤ × List ℕ) → ℤ → Option ℤ
unfolding parse_commands results_text clamp_advance
ack_and_get_next_command ioctl advance_err =
    let (ret, nxt_cmd) = ioctl (results_text advance_err) in
    if ret ==ℤ pos 0 then parse_commands nxt_cmd else some (clamp_advance (advance (pos 100)))
