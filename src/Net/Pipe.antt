-- ===== src/Net/Pipe.antt =====
-- A network that keeps the promises of a stream socket: bytes in two queues.
use rtmb.Net.{signalled, client, server, bytes, Received, Side, Network}
use rtmb.Base.Int.{ℤ, pos}
use rtmb.Net.Stream.{arrival, interruption, Arrival, SendsWhole, Stream, peer}
use rtmb.Base.{
  take-drop-append, ap, drop, ◌≤◌, ◌++◌, take, leb, ◌≡◌, ◌<◌, length, if◌then◌else◌, arith, ℕ, List,
  suc, zero, refl, [], ◌∷◌,
}

-- The bytes on the way to both sides; a list of the largest pieces that `recv`
-- gives, 0 for a signal, and gives all that it can when the list is used up.
pub record Pipe : Type 0 where
  pub to_client : List ℕ
  pub to_server : List ℕ
  pub cuts : List ℕ

abbrev pub on_way : Side → Pipe → List ℕ
on_way client p = p.to_client
on_way server p = p.to_server

abbrev pub left_on_way : Side → List ℕ → List ℕ → Pipe → Pipe
left_on_way client bs cuts p = record p { to_client = bs; cuts = cuts }
left_on_way server bs cuts p = record p { to_server = bs; cuts = cuts }

abbrev pub smaller : ℕ → ℕ → ℕ
smaller a b = if leb a b then a else b

abbrev pub pipe_recv : Side → ℕ → List ℕ → Pipe → Received × Pipe
pipe_recv side n [] p =
    (bytes (take n (on_way side p)), left_on_way side (drop n (on_way side p)) [] p)
pipe_recv side n (zero ∷ cuts) p = (signalled, record p { cuts = cuts })
pipe_recv side n (suc c ∷ cuts) p =
    let k = smaller (suc c) n in
    (bytes (take k (on_way side p)), left_on_way side (drop k (on_way side p)) cuts p)

abbrev pub pipe_send : Side → List ℕ → Pipe → ℤ × Pipe
pipe_send client bs p = (pos (length bs), record p { to_server = p.to_server ++ bs })
pipe_send server bs p = (pos (length bs), record p { to_client = p.to_client ++ bs })

abbrev pub pipe : Network Pipe
pipe = record { recv = λ side n p. pipe_recv side n p.cuts p; send = pipe_send }

length-take-le : (n : ℕ) (bs : List ℕ) → length (take n bs) ≤ n
length-take-le zero bs = omega arith
length-take-le (suc n) [] = omega arith
length-take-le (suc n) (b ∷ bs) = omega (arith, length-take-le n bs)

length-take-pos : (n : ℕ) (bs : List ℕ) → 0 < n → 0 < length bs → 0 < length (take n bs)
length-take-pos zero bs h k = absurd (omega arith)
length-take-pos (suc n) [] h k = absurd (omega arith)
length-take-pos (suc n) (b ∷ bs) h k = omega arith

pipe_piece :
    (side : Side) (n k : ℕ) (cuts : List ℕ) (p : Pipe)
    → 0 < k
    → k ≤ n
    → length cuts ≤ length p.cuts
    → 0 < length (on_way side p)
    → Arrival on_way
        (λ p. length p.cuts)
        side
        n
        p
        (bytes (take k (on_way side p)), left_on_way side (drop k (on_way side p)) cuts p)
pipe_piece client n k cuts p h small fewer some_left =
    arrival _ _ (length-take-pos k p.to_client h some_left)
      (omega (arith, length-take-le k p.to_client)) (take-drop-append k p.to_client) refl fewer
pipe_piece server n k cuts p h small fewer some_left =
    arrival _ _ (length-take-pos k p.to_server h some_left)
      (omega (arith, length-take-le k p.to_server)) (take-drop-append k p.to_server) refl fewer

same_bytes :
    (p : Pipe) (cuts : List ℕ) (s : Side) → on_way s (record p { cuts = cuts }) ≡ on_way s p
same_bytes p cuts client = refl
same_bytes p cuts server = refl

pub pipe-recv_law :
    (side : Side) (n : ℕ) (cuts : List ℕ) (p : Pipe)
    → cuts ≡ p.cuts
    → 0 < n
    → 0 < length (on_way side p)
    → Arrival on_way (λ p. length p.cuts) side n p (pipe_recv side n cuts p)
pipe-recv_law side n [] p e h k = pipe_piece side n n [] p h (omega arith) (omega arith) k
pipe-recv_law client n (zero ∷ cuts) p e h k =
    let fewer : suc (length cuts) ≡ length p.cuts = ap length e in
    interruption (record p { cuts = cuts }) (same_bytes p cuts) (omega arith)
pipe-recv_law server n (zero ∷ cuts) p e h k =
    let fewer : suc (length cuts) ≡ length p.cuts = ap length e in
    interruption (record p { cuts = cuts }) (same_bytes p cuts) (omega arith)
pipe-recv_law side n (suc c ∷ cuts) p e h k =
    pipe_piece side n (smaller (suc c) n) cuts p (ground arith) (ground arith)
      (omega (arith, ap length e)) k

pub IsSent : Side → List ℕ → Pipe → Type 0
IsSent side bs p =
    let p' = pipe_send side bs p in
    (p'.0 ≡ pos (length bs))
    × (on_way (peer side) p'.1 ≡ on_way (peer side) p ++ bs)
    × (on_way side p'.1 ≡ on_way side p)
    × (length p'.1.cuts ≤ length p.cuts)

pub pipe_send_lem : (side : Side) (bs : List ℕ) (p : Pipe) → IsSent side bs p
unfolding IsSent
pipe_send_lem client bs p = (refl, refl, refl, omega arith)
pipe_send_lem server bs p = (refl, refl, refl, omega arith)

unfoldable pub pipe-Stream : Stream pipe
unfolding IsSent
pipe-Stream = record {
  incoming = record {
    pending = on_way;
    signals = λ p. length p.cuts;
    recv_law = λ side n p h k. pipe-recv_law side n p.cuts p refl h k;
  };
  send_adds = λ side bs p e. (pipe_send_lem side bs p).1;
  send_keeps = λ side bs p e. (pipe_send_lem side bs p).2;
  send_signals = λ side bs p e. (pipe_send_lem side bs p).3;
}

pub pipe-SendsWhole : SendsWhole pipe
unfolding IsSent
pipe-SendsWhole = record { takes_all = λ side bs p. (pipe_send_lem side bs p).0 }
