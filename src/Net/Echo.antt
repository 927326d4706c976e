-- ===== src/Net/Echo.antt =====
-- The server sends every message back, so the client measures and finds its message again.
use rtmb.Net.Pieces.{receive-Works, Arrived}
use rtmb.Net.Stream.{peer, SendsWhole, Stream, Incoming}
use rtmb.Config.{eqb_ℤ}
use rtmb.Base.Int.{ltb_ℤ, pos_part, ℤ, negsuc, pos}
use rtmb.Net.{receive, served, serve_once, Side, Served, fetch, Network, server, client}
use mathlib.Core.List.{append-nil}
use rtmb.Base.{
  sym, length-take, ◌∙◌, take-drop-append, take, returns, Returns-bind, take-append_length, drop,
  ap, length-append, Returns, ◌+◌, le→leb, ◌≤◌, ok, ◌<◌, ◌++◌, arith, ◌≡◌, length, List, ℕ, true,
  refl, [],
}

pub eqb_ℤ-refl : (n : ℕ) → eqb_ℤ (pos n) (pos n) ≡ true
eqb_ℤ-refl n = ground arith

fetch-append : (bs back : List ℕ) → fetch (length bs) (bs ++ back) ≡ ok bs
unfolding fetch
fetch-append bs back =
    rw (le→leb (length bs) (length (bs ++ back)) (omega (arith, length-append bs back)))
      (ap ok (take-append_length bs back))

pub fetch-all : (n : ℕ) (bs : List ℕ) → n ≡ length bs → fetch n bs ≡ ok bs
fetch-all n bs e =
    ap (λ n. fetch n bs) e
    ∙ ap (fetch (length bs)) (sym (append-nil bs))
    ∙ fetch-append bs []
    ∙ ap ok refl

module _ {W : Type 0} (net : Network W) where
  -- A message that is all that is on the way is received at the start of the buffer.
  pub receive-Arrived :
      (incoming : Incoming net) (fuel : ℕ) (side : Side) (n : ℕ) (buffer bs : List ℕ) (w : W)
      → n ≡ length bs
      → 0 < n
      → n ≤ length buffer
      → incoming.pending side w ≡ bs
      → incoming.signals w + n ≤ fuel
      → Returns
          (Arrived net incoming side
            (bs ++ drop n buffer)
            []
            (incoming.pending (peer side) w)
            (incoming.signals w))
          (receive net fuel side 0 n buffer w)
  receive-Arrived incoming fuel side n buffer bs w size some_bytes room e enough =
      receive-Works net incoming fuel side 0 n buffer (bs ++ drop n buffer) [] (take n buffer)
        (drop n buffer) bs [] w refl size (take-drop-append n buffer) refl some_bytes
        (length-take n buffer room) (e ∙ sym (append-nil bs)) enough

  module _ (stream : Stream net) where
    open stream use {incoming, pending, signals}

    -- The server goes on, and all of `msg` is on its way back.
    pub record IsEchoed (msg rcv_msg : List ℕ) (limit : ℕ) (s : Served W) : Type 0 where
      pub after : W
      pub goes_on : s ≡ served rcv_msg after
      pub to_client : pending client after ≡ msg
      pub to_server : pending server after ≡ []
      pub quieter : signals after ≤ limit

    pub serve_once-IsEchoed :
        (whole : SendsWhole net) (fuel : ℕ) (msg rcv_msg : List ℕ) (w : W)
        → 0 < length msg
        → length msg ≤ length rcv_msg
        → pending server w ≡ msg
        → pending client w ≡ []
        → signals w + length msg ≤ fuel
        → Returns
            (IsEchoed msg (msg ++ drop (length msg) rcv_msg) (signals w))
            (serve_once net fuel (length msg) rcv_msg w)
    unfolding serve_once
    serve_once-IsEchoed whole fuel msg rcv_msg w some_bytes room e e' enough =
        Returns-bind
          (receive-Arrived incoming fuel server (length msg) rcv_msg msg w refl some_bytes room e
            enough)
          λ got a.
            rw
              (
                positive got.ret a.received,
                a.stored,
                fetch-append msg (drop (length msg) rcv_msg),
                whole.takes_all server msg got.world,
                eqb_ℤ-refl (length msg),
              )
              (returns (record {
                after = (net.send server msg got.world).1;
                goes_on = refl;
                to_client =
                    stream.send_adds server msg got.world (whole.takes_all server msg got.world)
                    ∙ ap (λ l. l ++ msg) (a.untouched ∙ e');
                to_server =
                    stream.send_keeps server msg got.world (whole.takes_all server msg got.world)
                    ∙ a.still_on_way;
                quieter = omega (
                  arith,
                  stream.send_signals server msg got.world (whole.takes_all server msg got.world),
                  a.quieter,
                );
              }))
      where
        positive : (n : ℤ) → 0 < pos_part n → ltb_ℤ (pos 0) n ≡ true
        positive (pos n) h = ground arith
        positive (negsuc n) h = absurd (omega arith)
