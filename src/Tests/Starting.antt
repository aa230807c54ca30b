-- ===== src/Tests/Starting.antt =====
-- Sockets that are opened, a frame that is sent, three short reads, and the spinner.
use vt_mechanisms.Prelude.{ℕ, ◌≡◌, refl, List, [], ◌∷◌, none, some, pos, codes, map, arith}
use vt_mechanisms.Prelude.{◌⊎◌, ◌+◌, length, ◌==ℤ◌, if◌then◌else◌, negsuc, ℤ}
use vt_mechanisms.Sockets
use vt_mechanisms.Sockets.{
  Trace, Call, socket, bind, if_nametoindex, open_sockets, finish_thread, thread_exit,
}
use vt_mechanisms.Sockets.Balance.{Opens, SomeOpen, open_sockets-finish_thread}
use vt_mechanisms.Start.Spinner.{create_spinner_task, exited}
use vt_mechanisms.Sending.{send_packet, stored, returned, read_n}
use vt_mechanisms.Sending.ReadAll.{read_n-concat}

abbrev pieces : List (List ℕ)
pieces = (1 ∷ 2 ∷ []) ∷ (3 ∷ []) ∷ (4 ∷ 5 ∷ []) ∷ []

read_n-concat_example : read_n (map stored pieces) 5 ≡ returned 5 (1 ∷ 2 ∷ 3 ∷ 4 ∷ 5 ∷ [])
read_n-concat_example =
    read_n-concat pieces 5
      (ground arith, ground arith, (ground arith, ground arith, (ground arith, ground arith, refl)))

-- without a hardware address the frame keeps what the address held
send_packet_runs :
    (send_packet
      (λ name. some 7)
      (λ name. none)
      (record { sll_ifindex = 0; sll_halen = 0; sll_addr = 9 ∷ 9 ∷ [] })
      (1 ∷ 2 ∷ 3 ∷ [])
      2
      (codes "s1-eth1")).1
    ≡ record {
      bytes = 1 ∷ 2 ∷ [];
      address = record { sll_ifindex = 7; sll_halen = 6; sll_addr = 9 ∷ 9 ∷ [] };
    }
unfolding send_packet
send_packet_runs = refl

-- a kernel that numbers its descriptors by the calls before
abbrev kernel : Trace → Call → ℤ
kernel tr socket = pos (3 + length tr)
kernel tr (bind sock ifindex) = if ifindex ==ℤ pos 0 then negsuc 0 else pos 0
kernel tr (if_nametoindex name) = pos (length name)
kernel tr _ = pos 0

abbrev two_names : List (List ℕ)
two_names = codes "s1-eth1" ∷ codes "s1-eth2" ∷ []

open_sockets-finish_thread_example :
    ((socks : List ℤ) × (tr' tr'' : Trace) × (open_sockets kernel two_names []
        ≡ Sockets.returned socks tr')
      × (length socks ≡ length two_names)
      × Opens [] tr' socks
      × (finish_thread kernel {A = Unit {0}} socks tr' ≡ thread_exit tr'')
      × Opens [] tr'' [])
    ⊎ SomeOpen kernel two_names []
open_sockets-finish_thread_example = open_sockets-finish_thread kernel two_names []

spinner_runs : create_spinner_task (pos 0) (negsuc 0) ≡ exited (pos 2)
unfolding create_spinner_task
spinner_runs = refl
