-- ===== src/Net.antt =====
-- The exchange of messages in rtmb_c/src/testcase/config_test/net_io_config.c: what the client and
-- the server share, and the server. The two sockets of a connection are a parameter, as is what
-- `accept` and the calls before it answer. Memory is never exhausted.
pub mod Stream
pub mod Pipe
pub mod Pieces
pub mod Setup
pub mod Client
pub mod Echo
pub mod Rounds
mod Examples
use rtmb.Config.{exhausted, eqb_ℤ, double_int}
use rtmb.Base.Int.{ltb_ℤ, error, ℤ, pos}
use rtmb.Base.{
  none, out_of_bounds, ◌-◌, take, replicate, ltb, length, ◌∷◌, ◌&&◌, ◌%◌, leb, buffer_overflow, ◌+◌,
  ◌++◌, out_of_fuel, ok, if◌then◌else◌, fault, [], Run, ℕ, List, Bool, ◌>>=◌, false, true, suc,
  zero,
}

-- `DEF_NETIO_SZ`
abbrev pub def_netio_sz : ℕ
def_netio_sz = 512

-- The letters of the loop in `msg_alloc_init`, from the place `i` on.
abbrev pub letters : ℕ → ℕ → List ℕ
letters i zero = []
letters i (suc n) = (97 + i % 26) ∷ letters (i + 1) n

-- A negative size fails in `malloc`; the last byte stays 0, and there is none in an empty message.
unfoldable pub msg_alloc_init : ℕ → List ℕ
msg_alloc_init zero = []
msg_alloc_init (suc n) = letters 0 n ++ 0 ∷ []

-- The two ends of the connection.
pub data Side : Type 0 where
  client server : Side

-- What `recv` answers: that a signal came first, another error, or the bytes that it has stored,
-- none once the other side has closed.
pub data Received : Type 0 where
  signalled failed : Received
  bytes : List ℕ → Received

-- `recv`, which is asked for so many bytes at most, and `send`.
pub record Network (W : Type 0) : Type 0 where
  pub recv : Side → ℕ → W → Received × W
  pub send : Side → List ℕ → W → ℤ × W

-- The bytes stored at the start of a buffer, and at the place `at`.
unfoldable pub overwrite : List ℕ → List ℕ → Run (List ℕ)
overwrite buffer [] = ok buffer
overwrite [] (b ∷ bs) = fault buffer_overflow
overwrite (x ∷ buffer) (b ∷ bs) = do buffer ← overwrite buffer bs; ok (b ∷ buffer)

unfoldable pub store : ℕ → List ℕ → List ℕ → Run (List ℕ)
store zero bs buffer = overwrite buffer bs
store (suc at) bs [] = fault buffer_overflow
store (suc at) bs (x ∷ buffer) = do buffer ← store at bs buffer; ok (x ∷ buffer)

-- The bytes that `send` reads.
unfoldable pub fetch : ℕ → List ℕ → Run (List ℕ)
fetch msg_size buffer =
    if leb msg_size (length buffer) then ok (take msg_size buffer) else fault out_of_bounds

-- The end of the receiving loop: the last answer of `recv` as the code reads it.
pub record Receipt (W : Type 0) : Type 0 where
  pub ret : ℤ
  pub buffer : List ℕ
  pub world : W

-- What the server does after an iteration: it goes on with its buffer, or leaves.
pub data Served (W : Type 0) : Type 0 where
  served : List ℕ → W → Served W
  left : W → Served W

module _ {W : Type 0} (net : Network W) where
  -- What the receiving loop does with the answer of `recv`, when `more` is the rest of the loop;
  -- `buffer` of the source is `at` places after the start of the memory `buffer`.
  unfoldable pub on_answer :
      (ℕ → ℕ → List ℕ → W → Run (Receipt W)) → ℕ → ℕ → List ℕ → Received × W → Run (Receipt W)
  on_answer more at bytes_remaining buffer (signalled, w) = more at bytes_remaining buffer w
  on_answer more at bytes_remaining buffer (failed, w) =
      ok (record { ret = error; buffer = buffer; world = w })
  on_answer more at bytes_remaining buffer (bytes bs, w) = do
    buffer ← store at bs buffer
    if ltb 0 (length bs) && ltb (length bs) bytes_remaining
        then more (at + length bs) (bytes_remaining - length bs) buffer w
        else ok (record { ret = pos (length bs); buffer = buffer; world = w })

  -- `do … while (retry != 0)`, the same loop on both sides.
  unfoldable pub receive : ℕ → Side → ℕ → ℕ → List ℕ → W → Run (Receipt W)
  receive zero side at bytes_remaining buffer w = out_of_fuel
  receive (suc fuel) side at bytes_remaining buffer w =
      on_answer (λ at bytes_remaining buffer w. receive fuel side at bytes_remaining buffer w) at
        bytes_remaining buffer (net.recv side bytes_remaining w)

  -- One iteration of the server: the message is received and sent back.
  unfoldable pub serve_once : ℕ → ℕ → List ℕ → W → Run (Served W)
  serve_once fuel msg_size rcv_msg w = do
    got ← receive fuel server 0 msg_size rcv_msg w
    if ltb_ℤ (pos 0) got.ret
        then (do
          response ← fetch msg_size got.buffer
          let sent = net.send server response got.world
          ok (if eqb_ℤ sent.0 (pos msg_size) then served got.buffer sent.1 else left sent.1))
        else ok (left got.world)

  unfoldable pub serve_round : ℕ → ℕ → ℕ → List ℕ → W → Run (Served W)
  serve_round fuel zero msg_size rcv_msg w = ok (served rcv_msg w)
  serve_round fuel (suc iterations) msg_size rcv_msg w = do
    once ← serve_once fuel msg_size rcv_msg w
    elim once [
      | served rcv_msg w ↦ serve_round fuel iterations msg_size rcv_msg w
      | left w ↦ ok (left w)
    ]

-- How the server ended: what it left open.
pub record ServerEnd (W : Type 0) : Type 0 where
  pub serv_sock_open : Bool
  pub cli_sock_open : Bool
  pub world : W

-- What the calls before `accept` answer.
pub record ServerSetup : Type 0 where
  pub socket_made : Bool
  pub timeout_set : Bool
  pub reuse_set : Bool
  pub bound : Bool
  pub listening : Bool

-- The accept loop, with what `stay_alive` holds and what `accept` answers the n-th time: whether a
-- client is connected, and how many readings of `stay_alive` were made.
unfoldable pub accept_loop : (ℕ → Bool) → (ℕ → Bool) → ℕ → ℕ → Run (Bool × ℕ)
accept_loop stay_alive accept zero n = out_of_fuel
accept_loop stay_alive accept (suc fuel) n = elim (stay_alive n) [
  | true ↦ elim (accept n) [
    | true ↦ ok (true, n + 1)
    | false ↦ accept_loop stay_alive accept fuel (n + 1)
  ]
  | false ↦ ok (false, n + 1)
]

module _ {W : Type 0} (net : Network W) (stay_alive : ℕ → Bool) where
  -- The loop over the rounds; `calloc` clears the new memory.
  unfoldable pub serve_rounds : ℕ → ℕ → ℕ → ℕ → ℕ → List ℕ → W → Run (ServerEnd W)
  serve_rounds zero fuel iterations n msg_size rcv_msg w = out_of_fuel
  serve_rounds (suc rounds) fuel iterations n msg_size rcv_msg w = elim (stay_alive n) [
    | false ↦ ok (record { serv_sock_open = false; cli_sock_open = false; world = w })
    | true ↦ (do
      round ← serve_round net fuel iterations msg_size rcv_msg w
      elim round [
        | left w ↦ ok (record { serv_sock_open = true; cli_sock_open = false; world = w })
        | served rcv_msg w ↦ (do
          msg_size ← double_int msg_size
          serve_rounds rounds fuel iterations (n + 1) msg_size (replicate msg_size 0) w)
      ])
  ]

  -- The field `stay_alive` never rises more. `rcv_msg` is what `malloc(30 * DEF_NETIO_SZ)` gave.
  unfoldable pub net_server_impl :
      (ℕ → Bool) → ServerSetup → ℕ → ℕ → ℕ → ℕ → List ℕ → W → Run (ServerEnd W)
  net_server_impl accept setup tries rounds fuel iterations rcv_msg w =
      if setup.socket_made
      then if setup.timeout_set && setup.reuse_set && setup.bound && setup.listening
        then (do
          connection ← accept_loop stay_alive accept tries 0
          if connection.0
              then serve_rounds rounds fuel iterations connection.1 def_netio_sz rcv_msg w
              else ok (record { serv_sock_open = false; cli_sock_open = false; world = w }))
        else ok (record { serv_sock_open = true; cli_sock_open = false; world = w })
      else ok (record { serv_sock_open = false; cli_sock_open = false; world = w })
