-- ===== src/Dispatch/Early.antt =====
-- One spurious wakeup in the loop of the sender leaves the receiver waiting for ever.
use rtmb.Dispatch.{
  Duo, Thread, sender, receiver, gone, hearing, listening, waking, free, begin, turn, take_turns,
  happen, sender_early,
}
use rtmb.Dispatch.Turns.{duo}
use rtmb.Base.{◌≡◌, refl, ℕ, zero, suc, false, List, [], ◌∷◌, none}

-- The sender has ended, the receiver waits, and no thread can run.
pub record IsStuck (sub : ℕ) (s : Duo) : Type 0 where
  pub sender_ended : s.at_sender ≡ gone
  pub receiver_waits : s.at_receiver ≡ hearing
  pub none_runs : (who : Thread) → turn sub who s ≡ none

-- The turns up to the first wait of the sender in its loop.
abbrev up_to_wait : List Thread
up_to_wait = receiver ∷ receiver ∷ receiver ∷ sender ∷ sender ∷ sender ∷ []

-- The turns from there on, for the signals that are left after the one that is lost.
abbrev rounds : ℕ → List Thread
rounds zero = receiver ∷ receiver ∷ sender ∷ sender ∷ []
rounds (suc k) = receiver ∷ receiver ∷ sender ∷ sender ∷ rounds k

end-IsStuck : (sub : ℕ) → IsStuck sub (duo free false gone 0 0 hearing 1 1)
end-IsStuck sub = record {
  sender_ended = refl;
  receiver_waits = refl;
  none_runs = λ who. none_left who;
}
  where
    none_left : (who : Thread) → turn sub who (duo free false gone 0 0 hearing 1 1) ≡ none
    none_left sender = refl
    none_left receiver = refl

rounds-IsStuck :
    (sub k : ℕ)
    → IsStuck sub
        (take_turns sub (rounds k) (duo free false listening 1 (suc k) waking 1 (suc (suc k))))
rounds-IsStuck sub zero = end-IsStuck sub
rounds-IsStuck sub (suc k) = rounds-IsStuck sub k

-- For at least two rounds of the inner loops there are turns of the two threads with one spurious
-- wakeup of the sender between them, after which the sender has ended, the receiver is still in its
-- wait, and no thread can run: the signal that the sender then sends finds no one waiting.
pub begin-IsStuck :
    (k : ℕ)
    → (earlier : List Thread) × (later : List Thread) × IsStuck (suc (suc k)) (
        take_turns
          (suc (suc k))
          later
          (happen (suc (suc k)) sender_early (take_turns (suc (suc k)) earlier (begin 1))))
begin-IsStuck k = (up_to_wait, sender ∷ sender ∷ rounds k, rounds-IsStuck (suc (suc k)) k)
