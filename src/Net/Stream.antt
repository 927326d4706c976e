-- ===== src/Net/Stream.antt =====
-- What `recv` and `send` promise on a stream socket that stays connected: the bytes arrive in order,
-- none is lost, in pieces of any length, and only finitely many signals come in between. Apart from
-- this stands that no signal cuts a `send` short.
use rtmb.Net.{signalled, bytes, server, client, Received, Side, Network}
use rtmb.Base.Int.{pos}
use rtmb.Base.{◌≤◌, ◌++◌, ◌≡◌, ◌<◌, ℕ, length, List}

abbrev pub peer : Side → Side
peer client = server
peer server = client

-- A call of `recv` that is asked for at most `n` bytes, while there are bytes on the way to `side`.
pub data Arrival {W : Type 0} (pending : Side → W → List ℕ) (signals : W → ℕ) (side : Side) (n : ℕ)
    (w : W) : Received × W → Type 0 where
  interruption :
      (w' : W)
      → ((s : Side) → pending s w' ≡ pending s w)
      → signals w' < signals w
      → Arrival pending signals side n w (signalled, w')
  arrival :
      (bs : List ℕ) (w' : W)
      → 0 < length bs
      → length bs ≤ n
      → pending side w ≡ bs ++ pending side w'
      → pending (peer side) w' ≡ pending (peer side) w
      → signals w' ≤ signals w
      → Arrival pending signals side n w (bytes bs, w')

-- `pending` are the bytes on the way to a side, and `signals` how many signals may still come.
pub record Incoming {W : Type 0} (net : Network W) : Type 0 where
  pub pending : Side → W → List ℕ
  pub signals : W → ℕ
  pub recv_law :
      (side : Side) (n : ℕ) (w : W)
      → 0 < n
      → 0 < length (pending side w)
      → Arrival pending signals side n w (net.recv side n w)

-- A `send` that takes all its bytes adds them to those on the way; nothing is said of one that takes
-- fewer or fails.
pub record Stream {W : Type 0} (net : Network W) : Type 0 where
  pub incoming : Incoming net
  pub open incoming use {pending, signals}
  pub send_adds :
      (side : Side) (bs : List ℕ) (w : W)
      → (net.send side bs w).0 ≡ pos (length bs)
      → pending (peer side) (net.send side bs w).1 ≡ pending (peer side) w ++ bs
  pub send_keeps :
      (side : Side) (bs : List ℕ) (w : W)
      → (net.send side bs w).0 ≡ pos (length bs)
      → pending side (net.send side bs w).1 ≡ pending side w
  pub send_signals :
      (side : Side) (bs : List ℕ) (w : W)
      → (net.send side bs w).0 ≡ pos (length bs)
      → signals (net.send side bs w).1 ≤ signals w

-- No signal comes during a `send`, which blocks until it has taken all bytes.
pub record SendsWhole {W : Type 0} (net : Network W) : Type 0 where
  pub takes_all : (side : Side) (bs : List ℕ) (w : W) → (net.send side bs w).0 ≡ pos (length bs)
