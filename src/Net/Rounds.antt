-- ===== src/Net/Rounds.antt =====
-- The measuring loop of the client while the server answers it.
use rtmb.Config.Readings.{Readings, Holds}
use rtmb.Net.Client.{Exchange}
use rtmb.Clock.{Clock}
use rtmb.Result.Sorted.{Rearranges}
use rtmb.Double.{Double}
use rtmb.Net.Stream.{arrival, interruption, Arrival, Stream, Incoming}
use rtmb.Base.Int.{error, ℤ, pos}
use rtmb.Net.{
  bytes, bytes, Receipt, left, served, serve_once, Served, Received, Side, Network, server, client,
}
use rtmb.Base.{out_of_fuel, fault, Option, some, ◌≤◌, ok, length, ◌≡◌, Run, ℕ, List, []}

-- What the server's iteration leaves while the client waits for the answer to a `send`; it has its
-- buffer `rcv_msg`, and a fault of the server is an error of the client.
abbrev after_send : {W : Type 0} → ℤ → W → List ℕ → Run (Served W) → ℤ × (W × List ℕ)
after_send sent w rcv_msg (ok (served rcv_msg' w')) = (sent, (w', rcv_msg'))
after_send sent w rcv_msg (ok (left w')) = (sent, (w', rcv_msg))
after_send sent w rcv_msg _ = (error, (w, rcv_msg))

-- Whether the rest of the world is `rcv_msg` when a receiving loop ends.
abbrev Kept : {W : Type 0} → List ℕ → Run (Receipt (W × List ℕ)) → Type 0
Kept rcv_msg (ok e) = e.world.1 ≡ rcv_msg
Kept rcv_msg (fault f) = Unit
Kept rcv_msg out_of_fuel = Unit

module _ {W : Type 0} (net : Network W) (fuel msg_size : ℕ) where
  abbrev send_served : Side → List ℕ → W → List ℕ → ℤ × (W × List ℕ)
  send_served client bs w rcv_msg =
      let sent = net.send client bs w in
      after_send sent.0 sent.1 rcv_msg (serve_once net fuel msg_size rcv_msg sent.1)
  send_served server bs w rcv_msg = let sent = net.send server bs w in (sent.0, (sent.1, rcv_msg))

  -- The network with the server of this program at its other end: after a message of the client
  -- the server makes one iteration.
  abbrev pub with_server : Network (W × List ℕ)
  with_server = record {
    recv = λ side n w. let a = net.recv side n w.0 in (a.0, (a.1, w.1));
    send = λ side bs w. send_served side bs w.0 w.1;
  }

  module _ (incoming : Incoming net) where
    open incoming use {pending, signals}

    served-Arrival :
        (side : Side) (n : ℕ) (w : W) (rcv_msg : List ℕ) (a : Received × W)
        → Arrival pending signals side n w a
        → Arrival
            (λ (side : Side) (w : W × List ℕ). pending side w.0)
            (λ (w : W × List ℕ). signals w.0)
            side
            n
            (w, rcv_msg)
            (a.0, (a.1, rcv_msg))
    served-Arrival side n w rcv_msg a (interruption w' same fewer) =
        interruption (w', rcv_msg) same fewer
    served-Arrival side n w rcv_msg a (arrival bs w' some_bytes small e same fewer) =
        arrival bs (w', rcv_msg) some_bytes small e same fewer

    pub with_server-Incoming : Incoming with_server
    with_server-Incoming = record {
      pending = λ side w. pending side w.0;
      signals = λ w. signals w.0;
      recv_law = λ side n w h k.
          served-Arrival side n w.0 w.1 (net.recv side n w.0) (incoming.recv_law side n w.0 h k);
    }

  module _ (stream : Stream net) where
    open stream use {incoming, pending, signals}

    -- The server's buffer keeps its room.
    record IsAnswered (msg : List ℕ) (room limit : ℕ) (a : ℤ × (W × List ℕ)) : Type 0 where
      sent : a.0 ≡ pos (length msg)
      to_client : pending client (a.1.0) ≡ msg
      to_server : pending server (a.1.0) ≡ []
      roomy : length (a.1.1) ≡ room
      quieter : signals (a.1.0) ≤ limit

    module _ {F : Type 0} ⦃d : Double F⦄ (qsort : (ℤ → ℤ → ℤ) → List ℤ → List ℤ)
        (q : Rearranges qsort) (b : ℕ) (clock : Clock) where
      -- The client has measured the times `ts`, its message is whole and nothing is on the way.
      pub record IsExchanged (total : ℕ) (ts : List ℤ) (msg : List ℕ)
          (o : Option (Exchange F (W × List ℕ))) : Type 0 where
        pub e : Exchange F (W × List ℕ)
        pub goes_on : o ≡ some e
        pub measured : Holds total ts e.result
        pub whole : e.msg ≡ msg
        pub none_to_client : pending client (e.world.0) ≡ []
        pub none_to_server : pending server (e.world.0) ≡ []
