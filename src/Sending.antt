-- ===== src/Sending.antt =====
-- `send_packet` and the reads of a fixed number of bytes, `cread` and `read_n`, of
-- src/routing/utils.c. `ioctl` and `read` are given by their results.
pub mod ReadAll
use vt_mechanisms.Prelude.{
  ℕ, zero, suc, ◌+◌, ◌-◌, ◌≤◌, ◌≡◌, refl, ap, ◌≢◌, true, false, Bool-cases, inl, inr, List, [], ◌∷◌,
  ◌++◌, Option, none, some, ◌==◌, if◌then◌else◌, length, take, ℤ, pos, arith,
}

-- The fields of `struct sockaddr_ll` that the code assigns.
pub record SocketAddress : Type 0 where
  pub sll_ifindex : ℕ
  pub sll_halen : ℕ
  pub sll_addr : List ℕ

-- What `sendto` is called with.
pub record Frame : Type 0 where
  pub bytes : List ℕ
  pub address : SocketAddress

-- SIOCGIFINDEX and SIOCGIFHWADDR for an interface name; `none` is a result below 0. The first
-- leaves the index 0 then, the second the address that `socket_address` held before.
module _ (if_index : List ℕ → Option ℕ) (if_hwaddr : List ℕ → Option (List ℕ)) where
  ifr_ifindex : Option ℕ → ℕ
  ifr_ifindex none = 0
  ifr_ifindex (some n) = n

  address_after : Option (List ℕ) → SocketAddress → List ℕ
  address_after none socket_address = socket_address.sll_addr
  address_after (some mac) socket_address = take 6 mac

  unfoldable pub send_packet : SocketAddress → List ℕ → ℕ → List ℕ → ℤ × Frame
  unfolding ifr_ifindex address_after
  send_packet socket_address pkt size intf_name =
      let ifr_name = take 15 intf_name in
      (
        pos 1,
        record {
          bytes = take size pkt;
          address = record {
            sll_ifindex = ifr_ifindex (if_index ifr_name);
            sll_halen = 6;
            sll_addr = address_after (if_hwaddr ifr_name) socket_address;
          };
        },
      )

-- What a call of `read` returns: an error, or the bytes that it stores.
pub data Read : Type 0 where
  read_error : Read
  stored : List ℕ → Read

-- What a function that reads comes to: `exited` is the exit on an error of `read`, `waiting` a call
-- of `read` that has not returned.
pub data ReadResult : Type 0 where
  exited waiting : ReadResult
  returned : (n : ℕ) (buf : List ℕ) → ReadResult

unfoldable pub cread : List Read → ReadResult
cread [] = waiting
cread (read_error ∷ reads) = exited
cread (stored bytes ∷ reads) = returned (length bytes) bytes

-- The loop of `read_n` with `buf` what it has stored so far.
unfoldable pub read_n_loop : List Read → (n left : ℕ) → (buf : List ℕ) → ReadResult
read_n_loop reads n zero buf = returned n buf
read_n_loop [] n (suc left) buf = waiting
read_n_loop (read_error ∷ reads) n (suc left) buf = exited
read_n_loop (stored bytes ∷ reads) n (suc left) buf =
    let rest = read_n_loop reads n (suc left - length bytes) (buf ++ bytes) in
    if length bytes == 0 then returned 0 buf else rest

unfoldable pub read_n : List Read → ℕ → ReadResult
unfolding read_n_loop
read_n reads n = read_n_loop reads n n []
