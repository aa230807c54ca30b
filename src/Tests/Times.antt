-- ===== src/Tests/Times.antt =====
-- The table of costs, filled in an empty memory.
use vt_mechanisms.Prelude.{ℕ, ◌+◌, ◌≢◌, none, ℤ, Option, arith}
use vt_mechanisms.Heap.{Ptr, null, Heap, fault}
use vt_mechanisms.Heap.Access.{Ends}
use vt_mechanisms.LinkedList.Linked.{elem}
use vt_mechanisms.HashMap.{HashmapElem, HCmd}
use vt_mechanisms.Stub.{
  Cost, Fresh, costs, init_func_times, recvfrom, raw_socket, set_promisc, intf_name_to_sock_idx,
  get_dst_sock_idx, send_packet, poll, flush_buffer,
}
use vt_mechanisms.Stub.Times.{
  Charges, Destroyed, Unused, init_func_times-Charges, init_func_times-Destroyed,
}

abbrev pub number : Cost → ℕ
number recvfrom = 1
number raw_socket = 2
number set_promisc = 3
number intf_name_to_sock_idx = 4
number get_dst_sock_idx = 5
number send_packet = 6
number poll = 7
number flush_buffer = 8

abbrev pub address : Cost → Ptr
address c = 300 + number c

abbrev pub fresh : Cost → Fresh
fresh c = record {
  new_elem = 100 + number c;
  old_elem = record { key = null; key_val = ℤ.pos 0; value = null; equals = null };
  node = 200 + number c;
  old_node = elem 0 0 0;
}

abbrev pub empty : Heap HashmapElem
empty = record { nodes = λ p. none; items = λ p. none }

pub unused : Unused fresh empty costs
unused = ground arith

pub addressed : (c : Cost) → address c ≢ null
addressed c e = omega (arith, e)

abbrev pub no_call : Ptr → Ptr → Ptr → HCmd ℤ
no_call f a b h = fault

abbrev pub no_ints : Ptr → Option ℤ
no_ints p = none

init_func_times-Charges_example :
    Ends (init_func_times address fresh no_call no_ints empty) (Charges fresh address)
init_func_times-Charges_example =
    init_func_times-Charges fresh address no_call no_ints empty unused addressed

init_func_times-Destroyed_example :
    Ends (init_func_times address fresh no_call no_ints empty) (Destroyed fresh address)
init_func_times-Destroyed_example =
    init_func_times-Destroyed fresh address no_call no_ints empty unused
