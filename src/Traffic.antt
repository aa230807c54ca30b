-- ===== src/Traffic.antt =====
-- The traffic programs of src/routing/test under virtual time: the threads of client_n_vt.c, which
-- sends requests and waits for each answer, and of server_n_vt.c, which answers them. Their `main`,
-- the stub and the parser are those of the router. The socket is the one with the index 0.
pub mod Follows
pub mod Requests
pub mod Uncharged
use vt_mechanisms.Prelude.{
  ℕ, ◌+◌, ◌-◌, Bool, List, [], ◌∷◌, ◌++◌, Option, none, some, if◌then◌else◌, replicate, codes, ℤ,
  pos, ltb_ℤ, ◌==ℤ◌,
}
use vt_mechanisms.Decimal.{print_nat}
use vt_mechanisms.RouterThread.{
  ThreadState, going, Act, ◌>>=◌, ◌>>◌, look, charge_cost, start, announce_block, resume,
}

-- The cost under each name, as `update_stub` looks it up in the table of the program.
abbrev pub Costs : Type 0
Costs = List ℕ → Option ℤ

-- "REQUEST: <n>" with its NUL
unfoldable pub request : ℕ → List ℕ
unfolding print_nat
request n = codes "REQUEST: " ++ print_nat n n ++ 0 ∷ []

-- BUF_SIZE
abbrev pub buf_size : ℕ
buf_size = 20000

-- what `fill_buffer` leaves of `size` bytes
unfoldable pub fill_buffer : ℕ → List ℕ
fill_buffer size = replicate size b'A'

-- `sendto`
unfoldable pub send_to : List ℕ → Act (Unit {0})
send_to buffer s =
    going tt (record s { sent = s.sent ++ (record { pkt = buffer; dst_sock_idx = 0 }) ∷ [] })

-- What the system decides for one round of either loop: `arg->stop` at its head, and what
-- `recvfrom` returns.
pub record Exchange : Type 0 where
  pub stop : Bool
  pub received : ℤ

module _ (times : Costs) where
  unfoldable pub charge_name : List ℕ → Act (Unit {0})
  unfolding charge_cost
  charge_name name = charge_cost (times name)

  -- One round of the client, from the number of the last answered request.
  unfoldable pub client_round : Exchange → ℕ → Act ℕ
  unfolding look charge_name send_to request announce_block resume
  client_round x pkt_no = do
    look x.stop
    charge_name (codes "flush_buffer")
    send_to (request (pkt_no + 1))
    charge_name (codes "send_to")
    charge_name (codes "flush_buffer")
    announce_block >> resume
    if ltb_ℤ (pos 0) x.received
        then (charge_name (codes "computation") >> (λ s. going (pkt_no + 1) s))
        else (λ s. going pkt_no s)

  unfoldable pub client_loop : List Exchange → ℕ → Act ℕ
  unfolding client_round
  client_loop [] pkt_no = λ s. going pkt_no s
  client_loop (x ∷ xs) pkt_no = client_round x pkt_no >>= client_loop xs

  -- The client's thread from its first call of `update_stub` on: a sleep, and the loop.
  unfoldable pub run_client : List Exchange → Act ℕ
  unfolding start announce_block resume client_loop
  run_client xs = do start; announce_block >> resume; client_loop xs 0

  -- One round of the server.
  unfoldable pub server_round : Exchange → Act (Unit {0})
  unfolding look charge_name send_to fill_buffer announce_block resume
  server_round x = do
    look x.stop
    charge_name (codes "flush_buffer")
    announce_block >> resume
    if x.received ==ℤ pos 0 then (λ s. going tt s) else (do
      charge_name (codes "fill_buffer")
      send_to (fill_buffer (buf_size - 1))
      charge_name (codes "sendto"))

  unfoldable pub server_loop : List Exchange → Act (Unit {0})
  unfolding server_round
  server_loop [] = λ s. going tt s
  server_loop (x ∷ xs) = server_round x >> server_loop xs

  unfoldable pub run_server : List Exchange → Act (Unit {0})
  unfolding start server_loop
  run_server xs = start >> server_loop xs
