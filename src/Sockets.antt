-- ===== src/Sockets.antt =====
-- The system calls of src/routing/utils.c that open, set up and close descriptors. The kernel is a
-- parameter: it answers a call by what was called before. A function's result comes with the calls
-- that it made, the latest first.
pub mod Balance
use vt_mechanisms.Prelude.{
  ℕ, ◌+◌, ◌-◌, List, [], ◌∷◌, if◌then◌else◌, ltb_ℤ, ◌==ℤ◌, ℤ, pos, negsuc, take, length,
}

pub data Call : Type 0 where
  socket open_clone_device pipe : Call
  if_nametoindex : (name : List ℕ) → Call
  bind : (sock ifindex : ℤ) → Call
  set_reuse : (sock : ℤ) → Call
  set_flags : (sock : ℤ) (name : List ℕ) → Call
  set_tun : (fd : ℤ) (name : List ℕ) (flags : ℤ) → Call
  get_hwaddr : (sock : ℤ) (name : List ℕ) → Call
  write : (fd : ℤ) (buf : List ℕ) → Call
  close : (fd : ℤ) → Call

pub record Event : Type 0 where
  pub call : Call
  pub answer : ℤ

abbrev pub Trace : Type 0
Trace = List Event

-- A function returns, or ends the thread or the process.
pub data SysResult (A : Type 0) : Type 0 where
  returned : A → Trace → SysResult A
  thread_exit : Trace → SysResult A
  process_exit : (status : ℕ) → Trace → SysResult A

abbrev pub Sys : Type 0 → Type 0
Sys A = Trace → SysResult A

infixl 5 ◌>>=◌ ◌>>◌
abbrev pub ◌>>=◌ : {A B : Type 0} → Sys A → (A → Sys B) → Sys B
◌>>=◌ m f tr = elim (m tr) [
  | returned a tr' ↦ f a tr'
  | thread_exit tr' ↦ thread_exit tr'
  | process_exit n tr' ↦ process_exit n tr'
]

abbrev pub ◌>>◌ : {A B : Type 0} → Sys A → Sys B → Sys B
m >> k = m >>= λ _. k

abbrev pub pure : {A : Type 0} → A → Sys A
pure a tr = returned a tr

abbrev pub pthread_exit : {A : Type 0} → Sys A
pthread_exit tr = thread_exit tr

abbrev pub exit : {A : Type 0} → ℕ → Sys A
exit n tr = process_exit n tr

-- IFNAMSIZ - 1
abbrev pub name_size : ℕ
name_size = 15

module _ (answer : Trace → Call → ℤ) where
  pub invoke : Call → Sys ℤ
  invoke c tr = returned (answer tr c) (record { call = c; answer = answer tr c } ∷ tr)

  unfoldable pub open_pipe : Sys (Unit {0})
  unfolding invoke
  open_pipe = do result ← invoke pipe; if ltb_ℤ result (pos 0) then exit 1 else pure tt

  -- the part behind a successful `socket`
  unfoldable pub bind_socket : ℤ → List ℕ → Sys ℤ
  unfolding invoke
  bind_socket sock bind_intf = do
    ifindex ← invoke (if_nametoindex bind_intf)
    bound ← invoke (bind sock ifindex)
    if ltb_ℤ bound (pos 0)
        then (do _ ← invoke (close sock); pthread_exit)
        else (do _ ← invoke (set_reuse sock); pure sock)

  -- `rawSocket`
  unfoldable pub raw_socket : List ℕ → Sys ℤ
  unfolding invoke bind_socket
  raw_socket bind_intf = do
    sock ← invoke socket
    if ltb_ℤ sock (pos 0) then pthread_exit else bind_socket sock bind_intf

  -- `setPromisc`
  unfoldable pub set_promisc : List ℕ → ℤ → Sys ℤ
  unfolding invoke
  set_promisc enterface sock = do
    result ← invoke (set_flags sock enterface)
    if result ==ℤ negsuc 0 then pthread_exit else pure (pos 1)

  unfoldable pub cwrite : ℤ → List ℕ → ℕ → Sys ℤ
  unfolding invoke
  cwrite fd buf n = do
    nwrite ← invoke (write fd (take n buf))
    if ltb_ℤ nwrite (pos 0) then exit 1 else pure nwrite

  -- `get_interface_MAC`: its answer is dropped
  unfoldable pub get_interface_mac : List ℕ → ℤ → Sys (Unit {0})
  unfolding invoke
  get_interface_mac interface_name sockfd = do
    _ ← invoke (get_hwaddr sockfd (take name_size interface_name))
    pure tt

  -- The loop of `process_thread` over its interfaces.
  unfoldable pub open_sockets : List (List ℕ) → Sys (List ℤ)
  unfolding raw_socket
  open_sockets [] = pure []
  open_sockets (name ∷ names) = do
    sock ← raw_socket name
    socks ← open_sockets names
    pure (sock ∷ socks)

  unfoldable pub close_sockets : List ℤ → Sys (Unit {0})
  unfolding invoke
  close_sockets [] = pure tt
  close_sockets (sock ∷ socks) = do _ ← invoke (close sock); close_sockets socks

  unfoldable pub finish_thread : {A : Type 0} → List ℤ → Sys A
  unfolding close_sockets
  finish_thread socks = do close_sockets socks; pthread_exit

  -- `tun_name` is the device that TUNSETIFF writes into its argument.
  module _ (tun_name : Trace → List ℕ) where
    -- `tun_alloc`: the descriptor and `dev`, which a failure leaves as it was
    unfoldable pub tun_alloc : List ℕ → ℤ → Sys (ℤ × List ℕ)
    unfolding invoke
    tun_alloc dev flags = do
      fd ← invoke open_clone_device
      if ltb_ℤ fd (pos 0) then pure (fd, dev) else (do
        err ← invoke (set_tun fd dev flags)
        if ltb_ℤ err (pos 0)
            then (do _ ← invoke (close fd); pure (err, dev))
            else (λ tr. pure (fd, tun_name tr) tr))
