-- ===== src/Dispatch/Heard.antt =====
-- No signal of the two threads is lost.
use rtmb.Dispatch.Turns.{
  begin-Joint, ended, end_hearing, end_entering, last_end, ahead_hearing, ahead_looping,
  ahead_starting, ahead_entering, last_answer, answered_hearing, answered, listens, sends, locks,
  tests_hearing, locks_early, tests_started, sleeps_late, tests_late, sleeps, receiver_turn-Joint,
  sender_turn-Joint, tests, Stays, Joint,
}
use mathlib.Core.Bool.{true≢false}
use rtmb.Dispatch.{
  Event, turn_of, ready_early, sender_early, receiver_early, happen, take_events, calm,
  signal_ready, begin, sender, receiver, listening, waking, turn, hearing, sending, Thread, Duo,
}
use rtmb.Base.{
  true, sym, arith, inr, ◌⊎◌, ◌<◌, ◌≡◌, Option, List, ℕ, inl, some, none, suc, refl, [], ◌∷◌,
}

stays_or_same :
    (sub : ℕ) (s : Duo) (o : Option Duo)
    → Joint sub s
    → Stays sub o
    → Joint sub (elim o [ none ↦ s | some s' ↦ s' ])
stays_or_same sub s none is h = is
stays_or_same sub s (some s') is h = h

-- An early end of the wait on `ready_condn` only repeats the test.
ready-Joint :
    (k : ℕ) {s : Duo}
    → Joint (suc k) s
    → Joint (suc k) (record s { at_sender = signal_ready s.at_sender })
ready-Joint k (tests a x y) = tests a x y
ready-Joint k (sleeps a x y) = tests a x y
ready-Joint k (tests_late a x y) = tests_late a x y
ready-Joint k (sleeps_late a x y) = tests_late a x y
ready-Joint k (tests_started a x) = tests_started a x
ready-Joint k (locks_early a x) = locks_early a x
ready-Joint k (tests_hearing a x) = tests_hearing a x
ready-Joint k (locks a x) = locks a x
ready-Joint k (sends a j) = sends a j
ready-Joint k (listens a j) = listens a j
ready-Joint k (answered a j) = answered a j
ready-Joint k (answered_hearing a j) = answered_hearing a j
ready-Joint k (last_answer y) = last_answer y
ready-Joint k (ahead_entering a y) = ahead_entering a y
ready-Joint k (ahead_starting a y) = ahead_starting a y
ready-Joint k (ahead_looping a) = ahead_looping a
ready-Joint k (ahead_hearing a) = ahead_hearing a
ready-Joint k (last_end y) = last_end y
ready-Joint k (end_entering a y) = end_entering a y
ready-Joint k (end_hearing a) = end_hearing a
ready-Joint k (ended x y) = ended x y

turn-Joint :
    (k : ℕ) (who : Thread) (s : Duo)
    → Joint (suc k) s
    → Joint (suc k) (happen (suc k) (turn_of who) s)
turn-Joint k sender s is =
    stays_or_same (suc k) s (turn (suc k) sender s) is (sender_turn-Joint k is)
turn-Joint k receiver s is =
    stays_or_same (suc k) s (turn (suc k) receiver s) is (receiver_turn-Joint k is)

pub take_events-Joint :
    (k : ℕ) (events : List Event) (s : Duo)
    → calm events ≡ true
    → Joint (suc k) s
    → Joint (suc k) (take_events (suc k) events s)
take_events-Joint k [] s h is = is
take_events-Joint k (turn_of who ∷ later) s h is =
    take_events-Joint k later _ h (turn-Joint k who s is)
take_events-Joint k (ready_early ∷ later) s h is = take_events-Joint k later _ h (ready-Joint k is)
take_events-Joint k (sender_early ∷ later) s h is = absurd (true≢false (sym h))
take_events-Joint k (receiver_early ∷ later) s h is = absurd (true≢false (sym h))

-- Each signal of one thread finds the other in its wait, except the receiver's first, which the
-- sender reads from `is_receiver_started`, and the receiver is at most one iteration ahead.
pub record IsHeard (s : Duo) : Type 0 where
  pub receiver_hears : s.at_sender ≡ sending → 0 < s.sender_sub → s.at_receiver ≡ hearing
  pub sender_hears : s.at_receiver ≡ waking → s.at_sender ≡ listening
  pub in_step : (s.sender_major ≡ s.receiver_major) ⊎ (s.sender_major ≡ suc s.receiver_major)

Joint-IsHeard : {sub : ℕ} {s : Duo} → Joint sub s → IsHeard s
Joint-IsHeard (tests a x y) = record { receiver_hears = cc; sender_hears = cc; in_step = inl refl }
Joint-IsHeard (sleeps a x y) = record { receiver_hears = cc; sender_hears = cc; in_step = inl refl }
Joint-IsHeard (tests_late a x y) = record {
  receiver_hears = cc;
  sender_hears = cc;
  in_step = inl refl;
}
Joint-IsHeard (sleeps_late a x y) = record {
  receiver_hears = cc;
  sender_hears = cc;
  in_step = inl refl;
}
Joint-IsHeard (tests_started a x) = record {
  receiver_hears = cc;
  sender_hears = cc;
  in_step = inl refl;
}
Joint-IsHeard (locks_early a x) = record {
  receiver_hears = cc;
  sender_hears = cc;
  in_step = inl refl;
}
Joint-IsHeard (tests_hearing a x) = record {
  receiver_hears = cc;
  sender_hears = cc;
  in_step = inl refl;
}
Joint-IsHeard (locks a x) = record { receiver_hears = cc; sender_hears = cc; in_step = inl refl }
Joint-IsHeard (sends a j) = record {
  receiver_hears = λ e h. refl;
  sender_hears = cc;
  in_step = inl refl;
}
Joint-IsHeard (listens a j) = record {
  receiver_hears = cc;
  sender_hears = λ e. refl;
  in_step = inl refl;
}
Joint-IsHeard (answered a j) = record { receiver_hears = cc; sender_hears = cc; in_step = inl refl }
Joint-IsHeard (answered_hearing a j) = record {
  receiver_hears = cc;
  sender_hears = cc;
  in_step = inl refl;
}
Joint-IsHeard (last_answer y) = record {
  receiver_hears = cc;
  sender_hears = cc;
  in_step = inr refl;
}
Joint-IsHeard (ahead_entering a y) = record {
  receiver_hears = cc;
  sender_hears = cc;
  in_step = inr refl;
}
Joint-IsHeard (ahead_starting a y) = record {
  receiver_hears = cc;
  sender_hears = cc;
  in_step = inr refl;
}
Joint-IsHeard (ahead_looping a) = record {
  receiver_hears = cc;
  sender_hears = cc;
  in_step = inr refl;
}
Joint-IsHeard (ahead_hearing a) = record {
  receiver_hears = cc;
  sender_hears = cc;
  in_step = inr refl;
}
Joint-IsHeard (last_end y) = record {
  receiver_hears = λ e h. absurd (omega arith);
  sender_hears = cc;
  in_step = inr refl;
}
Joint-IsHeard (end_entering a y) = record {
  receiver_hears = λ e h. absurd (omega arith);
  sender_hears = cc;
  in_step = inr refl;
}
Joint-IsHeard (end_hearing a) = record {
  receiver_hears = λ e h. refl;
  sender_hears = cc;
  in_step = inr refl;
}
Joint-IsHeard (ended x y) = record { receiver_hears = cc; sender_hears = cc; in_step = inl refl }

-- Both loops run `major` times over `suc k` rounds. After any turns of the threads, as long as no
-- spurious wakeup ends a wait of the two loops early (one of the wait on `ready_condn` does no harm),
-- a signal of the sender finds the receiver in its wait, a signal of the receiver inside its loop
-- finds the sender in its wait, and the receiver has finished as many iterations as the sender or one
-- more.
pub take_events-IsHeard :
    (k major : ℕ) (events : List Event)
    → calm events ≡ true
    → IsHeard (take_events (suc k) events (begin major))
take_events-IsHeard k major events h =
    Joint-IsHeard (take_events-Joint k events (begin major) h (begin-Joint k major))
