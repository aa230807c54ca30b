-- ===== src/Router.antt =====
-- src/routing/router_n.c: the command line, the names of the interfaces, and the loop that forwards
-- packets. `getopt`, `poll`, `recvfrom` and `atoi` are given by their results.
pub mod Forwards
pub mod Setup
pub mod Directs
pub mod Whole
use vt_mechanisms.Prelude.{
  length, ℕ, zero, suc, ◌+◌, ◌-◌, Bool, true, false, ◌||◌, List, [], ◌∷◌, ◌++◌, Option, none, some,
  ◌==◌, if◌then◌else◌, ltb, leb, take, codes, ℤ, pos, negsuc, leb_ℤ,
}
use vt_mechanisms.Decimal.{print_nat, atoi}

abbrev pub n_max_taps : ℕ
n_max_taps = 100

-- IFNAMSIZ of <net/if.h>
abbrev pub ifnamsiz : ℕ
ifnamsiz = 16

-- What `getopt` yields: an option with its argument.
pub data CommandOption : Type 0 where
  opt_h : CommandOption
  opt_i opt_n opt_f : (optarg : List ℕ) → CommandOption
  opt_other : CommandOption

pub record Settings : Type 0 where
  pub switch_name : List ℕ
  pub n_intfs : ℤ
  -- the text in the array of 100 bytes; `none` where -f was not given, or leaves no NUL in it
  pub routing_file_path : Option (List ℕ)

-- `none` is the exit of `usage`.
unfoldable pub read_options : List CommandOption → Settings → Option Settings
unfolding atoi
read_options [] s = some s
read_options (opt_h ∷ options) s = none
read_options (opt_i name ∷ options) s =
    read_options options (record s { switch_name = take (ifnamsiz - 1) name })
read_options (opt_n n ∷ options) s = read_options options (record s { n_intfs = atoi n })
read_options (opt_f path ∷ options) s =
    read_options options
      (record s { routing_file_path = if ltb (length path) 100 then some path else none })
read_options (opt_other ∷ options) s = none

-- The tests behind the options; `left` is the number of arguments that are no options.
unfoldable pub check_settings : Settings → (left : ℕ) → Option Settings
check_settings s left =
    if ltb 0 left
    then none
    else elim s.switch_name [ [] ↦ none | _ ∷ _ ↦ if leb_ℤ s.n_intfs (pos 0) then none else some s ]

unfoldable pub first_interface : List ℕ → ℕ
first_interface [] = 1
first_interface (c ∷ name) = if c == b'h' then 0 else 1

-- `sprintf(name, "%s-eth%d", switch_name, start)` for as many interfaces as are left
unfoldable pub interface_names : List ℕ → ℕ → ℕ → List (List ℕ)
unfolding print_nat
interface_names switch_name zero start = []
interface_names switch_name (suc n) start =
    (switch_name ++ codes "-eth" ++ print_nat start start)
    ∷ interface_names switch_name n (start + 1)

-- What a socket holds when the loop comes to it: not readable, or what `recvfrom` returns, which is
-- an error, no byte, or a packet.
pub data Socket : Type 0 where
  not_ready : Socket
  nothing_read : Socket
  packet : (data_bytes : List ℕ) → Socket

-- A call of `send_packet`: the packet, and the index of socket and interface.
pub record Sent : Type 0 where
  pub pkt : List ℕ
  pub dst_sock_idx : ℕ

-- How a pass over the sockets ends: at the last one, or by `goto repeat`.
pub record Pass : Type 0 where
  pub runnable : Bool
  pub sent : List Sent
  pub repeated : Bool

abbrev cons_sent : Sent → Pass → Pass
cons_sent s p = record p { sent = s ∷ p.sent }

-- `route` is `get_dst_sock_idx`. An index is below the number of interfaces.
module _ (route : List ℕ → ℤ) where
  unfoldable pub forward : List Socket → Bool → Pass
  forward [] runnable = record { runnable = runnable; sent = []; repeated = false }
  forward (not_ready ∷ socks) runnable = forward socks runnable
  forward (nothing_read ∷ socks) runnable = forward socks true
  forward (packet p ∷ socks) runnable =
      let rest = forward socks true in
      elim (route p) [
        | pos idx ↦ cons_sent (record { pkt = p; dst_sock_idx = idx }) rest
        | negsuc _ ↦ record { runnable = true; sent = []; repeated = true }
      ]

-- What a call of `poll` gives.
pub data PollResult : Type 0 where
  interrupted : PollResult
  failed : PollResult
  polled : List Socket → PollResult

-- The results of the calls of `poll` drive the loop: `working` is the outer loop, `blocked` the
-- inner one that polls without a time limit.
pub data Mode : Type 0 where
  working blocked finished : Mode

pub record State : Type 0 where
  pub mode : Mode
  pub sent : List Sent

module _ (route : List ℕ → ℤ) where
  unfoldable pub poll_step : Mode → List Sent → PollResult → State
  unfolding forward
  poll_step finished sent r = record { mode = finished; sent = sent }
  poll_step working sent interrupted = record { mode = working; sent = sent }
  poll_step blocked sent interrupted = record { mode = blocked; sent = sent }
  poll_step working sent failed = record { mode = finished; sent = sent }
  poll_step blocked sent failed = record { mode = finished; sent = sent }
  poll_step blocked sent (polled socks) = record { mode = working; sent = sent }
  poll_step working sent (polled socks) =
      let p = forward route socks false in
      record { mode = if p.repeated || p.runnable then working else blocked; sent = sent ++ p.sent }

  unfoldable pub forward_loop : List PollResult → State → State
  unfolding poll_step
  forward_loop [] s = s
  forward_loop (r ∷ rs) s = forward_loop rs (poll_step s.mode s.sent r)
