-- ===== src/Stub.antt =====
-- The application-level virtual time of src/routing/utils.c (`APP_VT`): a thread counts down the
-- time of its round, by a fixed cost for each function that it calls, and talks to `main` in
-- router_app_vt.c over two pipes, in decimal texts. `reply` is the text that a blocking `read`
-- of the pipe from `main` returns.
pub mod Account
pub mod Table
pub mod Times
use vt_mechanisms.Prelude.{
  ℕ, List, [], ◌∷◌, Option, none, some, if◌then◌else◌, ◌==◌, ℤ, pos, negsuc, ltb_ℤ, leb_ℤ, ◌-ℤ◌,
  codes,
}
use vt_mechanisms.Decimal.{print_int, atoi}
use vt_mechanisms.Heap.{Ptr, null, LlistElem, pure, ◌>>=◌}
use vt_mechanisms.HashMap.{HashmapElem, Hashmap, HCmd, hmap_init, hmap_put_abs, hmap_get_abs}
use vt_mechanisms.Hash.{name_key}

abbrev pub thread_blocked : ℤ
thread_blocked = negsuc 0

abbrev pub thread_exiting : ℤ
thread_exiting = negsuc 1

-- What `update_stub` returns. `no_value` is the end of the function without a `return`: the
-- caller, which tests the result, then reads an indeterminate value.
pub data StubResult : Type 0 where
  success : StubResult
  exiting : StubResult
  no_value : StubResult

-- The effect of a call: its result, `*curr_round_time_left`, and what it sent to `main`.
pub record StubEffect : Type 0 where
  pub result : StubResult
  pub curr_round_time_left : ℤ
  pub sent : Option (List ℕ)

-- `pipe_send`: the text of one `write`. A short or failed write ends the process by exit(0); the runs
-- here are those in which none does.
unfoldable pub pipe_send : ℤ → List ℕ
unfolding print_int
pipe_send msg = print_int msg

-- `pipe_read`: the number that the text begins with. A failed read ends the process by exit(-1).
unfoldable pub pipe_read : List ℕ → ℤ
unfolding atoi
pipe_read buf = atoi buf

-- `update_stub(.., NULL)`
unfoldable pub update_stub_first : (reply : List ℕ) → StubEffect
unfolding pipe_read
update_stub_first reply =
    let curr = pipe_read reply in
    record {
      result = if ltb_ℤ curr (pos 0) then exiting else success;
      curr_round_time_left = curr;
      sent = none;
    }

-- `update_stub(.., last_fn)`: `time_elapsed` is the cost that the table holds for `last_fn`.
unfoldable pub update_stub_after : Option ℤ → ℤ → (reply : List ℕ) → StubEffect
unfolding pipe_send pipe_read ◌-ℤ◌
update_stub_after none curr reply = record {
  result = success;
  curr_round_time_left = curr;
  sent = none;
}
update_stub_after (some time_elapsed) curr reply =
    let left = curr -ℤ time_elapsed in
    let curr' = pipe_read reply in
    if leb_ℤ left (pos 0)
    then record {
      result = if leb_ℤ curr' (pos 0) then exiting else success;
      curr_round_time_left = curr';
      sent = some (pipe_send (pos 0 -ℤ left));
    }
    else record { result = no_value; curr_round_time_left = left; sent = none }

-- `update_stub_blocking`
unfoldable pub update_stub_blocking : (reply : List ℕ) → StubEffect
unfolding pipe_send pipe_read
update_stub_blocking reply =
    let curr = pipe_read reply in
    record {
      result = if ltb_ℤ curr (pos 0) then exiting else success;
      curr_round_time_left = curr;
      sent = some (pipe_send thread_blocked);
    }

-- The lookup of a cost: `times` reads the `int` that a value of the table points to.
unfoldable pub time_of : Hashmap → (Ptr → ℤ) → List ℕ → HCmd (Option ℤ)
unfolding name_key
time_of func_times_us times last_fn = do
  value ← hmap_get_abs func_times_us (name_key last_fn)
  pure (if value == null then none else some (times value))

-- `update_stub` on the table
unfoldable pub update_stub :
    Hashmap → (Ptr → ℤ) → ℤ → Option (List ℕ) → (reply : List ℕ) → HCmd StubEffect
unfolding update_stub_first update_stub_after time_of
update_stub func_times_us times curr none reply = pure (update_stub_first reply)
update_stub func_times_us times curr (some last_fn) reply = do
  cost ← time_of func_times_us times last_fn
  pure (update_stub_after cost curr reply)

-- The cost variables of utils.c (`RECVFROM_US` and so on), each 50 microseconds.
pub data Cost : Type 0 where
  recvfrom raw_socket set_promisc intf_name_to_sock_idx : Cost
  get_dst_sock_idx send_packet poll flush_buffer : Cost

abbrev pub cost_us : Cost → ℤ
cost_us _ = pos 50

-- The string literal that `init_func_times` passes for each.
unfoldable pub cost_name : Cost → List ℕ
cost_name recvfrom = codes "recvfrom"
cost_name raw_socket = codes "rawSocket"
cost_name set_promisc = codes "setPromisc"
cost_name intf_name_to_sock_idx = codes "intf_name_to_sock_idx"
cost_name get_dst_sock_idx = codes "get_dst_sock_idx"
cost_name send_packet = codes "send_packet"
cost_name poll = codes "poll"
cost_name flush_buffer = codes "flush_buffer"

abbrev pub costs : List Cost
costs =
    recvfrom ∷ raw_socket ∷ set_promisc ∷ intf_name_to_sock_idx ∷ get_dst_sock_idx ∷ send_packet
    ∷ poll ∷ flush_buffer ∷ []

-- What the two calls of `malloc` in a call of `hmap_put_abs` return, and what that memory held.
pub record Fresh : Type 0 where
  pub new_elem : Ptr
  pub old_elem : HashmapElem
  pub node : Ptr
  pub old_node : LlistElem

-- `address` is where each cost variable stands.
module _ (address : Cost → Ptr) (fresh : Cost → Fresh) where
  unfoldable pub put_time : Hashmap → Cost → HCmd Hashmap
  unfolding name_key cost_name
  put_time h c =
      let f = fresh c in
      hmap_put_abs f.new_elem f.old_elem f.node f.old_node h (name_key (cost_name c)) (address c)

  unfoldable pub put_times : List Cost → Hashmap → HCmd Hashmap
  unfolding put_time
  put_times [] h = pure h
  put_times (c ∷ cs) h = put_time h c >>= put_times cs

  unfoldable pub init_func_times :
      (Ptr → Ptr → Ptr → HCmd ℤ) → (ints : Ptr → Option ℤ) → HCmd Hashmap
  unfolding put_times hmap_init
  init_func_times call ints = put_times costs (hmap_init call ints 1000)
