-- ===== src/Dispatch.antt =====
-- The two threads of rtmb_c/src/testcase/event_dispatch_test/signal_notifier.c, which wake each other
-- in turns. A turn of a thread runs from one call that can block to the next: what it does while it
-- holds `wait_notify_lock` is one turn, and so is each use of `ready_lock`. A wait ends after
-- a signal, or early: a spurious wakeup is an event of its own.
pub mod Turns
pub mod Heard
pub mod Ending
pub mod Early
pub mod Measure
mod Examples
use rtmb.Base.{
  ◌-◌, if◌then◌else◌, Option, List, ℕ, Bool, false, true, some, none, suc, zero, [], ◌∷◌,
}

pub data Thread : Type 0 where
  sender receiver : Thread

-- Who holds `wait_notify_lock`.
pub data Lock : Type 0 where
  free held : Lock

-- Where the sender is: before its test of `is_receiver_started`, in the wait on `ready_condn`, before
-- the lock, at the head of its loop with the lock, in the wait, woken and without the lock, and done.
pub data SenderAt : Type 0 where
  testing sleeping locking sending listening stirring gone : SenderAt

-- Where the receiver is: before the lock, with it before `set_receiver_started`, at the head of its
-- loop with the lock, in the wait, woken and without the lock, and done.
pub data ReceiverAt : Type 0 where
  entering starting looping hearing waking through : ReceiverAt

-- The iterations that are left of the outer and of the inner loop of each thread.
pub record Duo : Type 0 where
  pub lock : Lock
  pub is_receiver_started : Bool
  pub at_sender : SenderAt
  pub sender_major : ℕ
  pub sender_sub : ℕ
  pub at_receiver : ReceiverAt
  pub receiver_major : ℕ
  pub receiver_sub : ℕ

abbrev pub before : ℕ → ℕ
before zero = zero
before (suc n) = n

-- `pthread_cond_signal`: it wakes a thread that waits, and is lost if none does.
abbrev pub wake_receiver : ReceiverAt → ReceiverAt
wake_receiver hearing = waking
wake_receiver r = r

abbrev pub wake_sender : SenderAt → SenderAt
wake_sender listening = stirring
wake_sender s = s

abbrev pub signal_ready : SenderAt → SenderAt
signal_ready sleeping = testing
signal_ready s = s

-- After the last statement of the outer loop.
abbrev pub sender_next : ℕ → SenderAt
sender_next zero = gone
sender_next (suc left) = testing

abbrev pub receiver_next : ℕ → ReceiverAt
receiver_next zero = through
receiver_next (suc left) = entering

-- A turn of `signal_sender_start`, where it can run; `sub` is `evt_dispatch_sub_iterations`.
abbrev pub sender_turn : ℕ → SenderAt → Duo → Option Duo
sender_turn sub testing s =
    if s.is_receiver_started
    then some (record s { is_receiver_started = false; at_sender = locking })
    else some (record s { at_sender = sleeping })
sender_turn sub sleeping s = none
sender_turn sub locking s = elim (s.lock) [
  | free ↦ some (record s { lock = held; at_sender = sending; sender_sub = sub })
  | held ↦ none
]
sender_turn sub sending s = elim (s.sender_sub) [
  | zero ↦ some (record s {
    lock = free;
    sender_major = before s.sender_major;
    at_sender = sender_next (before s.sender_major);
  })
  | suc left ↦
      some
        (record s { lock = free; at_sender = listening; at_receiver = wake_receiver s.at_receiver })
]
sender_turn sub listening s = none
sender_turn sub stirring s = elim (s.lock) [
  | free ↦ some (record s { lock = held; at_sender = sending; sender_sub = before s.sender_sub })
  | held ↦ none
]
sender_turn sub gone s = none

-- A turn of `signal_receiver_start`, where it can run.
abbrev pub receiver_turn : ℕ → ReceiverAt → Duo → Option Duo
receiver_turn sub entering s = elim (s.lock) [
  | free ↦ some (record s { lock = held; at_receiver = starting })
  | held ↦ none
]
receiver_turn sub starting s = some (record s {
  is_receiver_started = true;
  at_sender = signal_ready s.at_sender;
  at_receiver = looping;
  receiver_sub = sub;
})
receiver_turn sub looping s = elim (s.receiver_sub) [
  | zero ↦ some (record s {
    lock = free;
    receiver_major = before s.receiver_major;
    at_receiver = receiver_next (before s.receiver_major);
  })
  | suc left ↦ some (record s { lock = free; at_receiver = hearing })
]
receiver_turn sub hearing s = none
receiver_turn sub waking s = elim (s.lock) [
  | free ↦ some (record s {
    lock = held;
    at_sender = wake_sender s.at_sender;
    at_receiver = looping;
    receiver_sub = before s.receiver_sub;
  })
  | held ↦ none
]
receiver_turn sub through s = none

abbrev pub turn : ℕ → Thread → Duo → Option Duo
turn sub sender s = sender_turn sub s.at_sender s
turn sub receiver s = receiver_turn sub s.at_receiver s

-- Both threads at their start.
abbrev pub begin : ℕ → Duo
begin major = record {
  lock = free;
  is_receiver_started = false;
  at_sender = sender_next major;
  sender_major = major;
  sender_sub = 0;
  at_receiver = receiver_next major;
  receiver_major = major;
  receiver_sub = 0;
}

-- The turns of a schedule; a thread that cannot run lets its turn pass.
abbrev pub take_turns : ℕ → List Thread → Duo → Duo
take_turns sub [] s = s
take_turns sub (who ∷ later) s =
    take_turns sub later (elim (turn sub who s) [ none ↦ s | some s' ↦ s' ])

-- A turn of a thread, or a spurious wakeup: of the sender in its wait on `ready_condn`, of the sender
-- in the wait of its loop, and of the receiver in its wait.
pub data Event : Type 0 where
  turn_of : Thread → Event
  ready_early sender_early receiver_early : Event

abbrev pub happen : ℕ → Event → Duo → Duo
happen sub (turn_of who) s = elim (turn sub who s) [ none ↦ s | some s' ↦ s' ]
happen sub ready_early s = record s { at_sender = signal_ready s.at_sender }
happen sub sender_early s = record s { at_sender = wake_sender s.at_sender }
happen sub receiver_early s = record s { at_receiver = wake_receiver s.at_receiver }

abbrev pub take_events : ℕ → List Event → Duo → Duo
take_events sub [] s = s
take_events sub (event ∷ later) s = take_events sub later (happen sub event s)

-- No wait of the two loops ends early. That on `ready_condn` may, since it stands in a `while`.
abbrev pub calm : List Event → Bool
calm [] = true
calm (turn_of who ∷ later) = calm later
calm (ready_early ∷ later) = calm later
calm (sender_early ∷ later) = false
calm (receiver_early ∷ later) = false
