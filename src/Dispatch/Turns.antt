-- ===== src/Dispatch/Turns.antt =====
-- The states that the two threads can be in together.
use rtmb.Dispatch.{
  gone, through, stirring, waking, listening, sending, hearing, locking, looping, starting, held,
  sleeping, entering, testing, sender, receiver, ReceiverAt, turn, free, SenderAt, begin, Duo, Lock,
}
use rtmb.Base.{Option, Bool, ℕ, false, true, some, none, suc, zero}

abbrev pub duo : Lock → Bool → SenderAt → ℕ → ℕ → ReceiverAt → ℕ → ℕ → Duo
duo lock started at_sender a x at_receiver b y = record {
  lock = lock;
  is_receiver_started = started;
  at_sender = at_sender;
  sender_major = a;
  sender_sub = x;
  at_receiver = at_receiver;
  receiver_major = b;
  receiver_sub = y;
}

-- `sub` rounds in each iteration. First the receiver gets ready, then the threads take turns, and at
-- the end of an iteration the receiver may be ahead of the sender up to its next wait.
pub data Joint (sub : ℕ) : Duo → Type 0 where
  tests : (a x y : ℕ) → Joint sub (duo free false testing (suc a) x entering (suc a) y)
  sleeps : (a x y : ℕ) → Joint sub (duo free false sleeping (suc a) x entering (suc a) y)
  tests_late : (a x y : ℕ) → Joint sub (duo held false testing (suc a) x starting (suc a) y)
  sleeps_late : (a x y : ℕ) → Joint sub (duo held false sleeping (suc a) x starting (suc a) y)
  tests_started : (a x : ℕ) → Joint sub (duo held true testing (suc a) x looping (suc a) sub)
  locks_early : (a x : ℕ) → Joint sub (duo held false locking (suc a) x looping (suc a) sub)
  tests_hearing : (a x : ℕ) → Joint sub (duo free true testing (suc a) x hearing (suc a) sub)
  locks : (a x : ℕ) → Joint sub (duo free false locking (suc a) x hearing (suc a) sub)
  sends : (a j : ℕ) → Joint sub (duo held false sending (suc a) (suc j) hearing (suc a) (suc j))
  listens : (a j : ℕ) → Joint sub (duo free false listening (suc a) (suc j) waking (suc a) (suc j))
  answered : (a j : ℕ) → Joint sub (duo held false stirring (suc a) (suc j) looping (suc a) j)
  answered_hearing :
      (a j : ℕ) → Joint sub (duo free false stirring (suc a) (suc (suc j)) hearing (suc a) (suc j))
  last_answer : (y : ℕ) → Joint sub (duo free false stirring 1 1 through 0 y)
  ahead_entering :
      (a y : ℕ) → Joint sub (duo free false stirring (suc (suc a)) 1 entering (suc a) y)
  ahead_starting :
      (a y : ℕ) → Joint sub (duo held false stirring (suc (suc a)) 1 starting (suc a) y)
  ahead_looping : (a : ℕ) → Joint sub (duo held true stirring (suc (suc a)) 1 looping (suc a) sub)
  ahead_hearing : (a : ℕ) → Joint sub (duo free true stirring (suc (suc a)) 1 hearing (suc a) sub)
  last_end : (y : ℕ) → Joint sub (duo held false sending 1 0 through 0 y)
  end_entering : (a y : ℕ) → Joint sub (duo held false sending (suc (suc a)) 0 entering (suc a) y)
  end_hearing : (a : ℕ) → Joint sub (duo held true sending (suc (suc a)) 0 hearing (suc a) sub)
  ended : (x y : ℕ) → Joint sub (duo free false gone 0 x through 0 y)

-- What a turn leaves, if the thread can run.
abbrev pub Stays : ℕ → Option Duo → Type 0
Stays sub none = Unit
Stays sub (some s) = Joint sub s

pub sender_turn-Joint : (k : ℕ) {s : Duo} → Joint (suc k) s → Stays (suc k) (turn (suc k) sender s)
sender_turn-Joint k (tests a x y) = sleeps a x y
sender_turn-Joint k (sleeps a x y) = tt
sender_turn-Joint k (tests_late a x y) = sleeps_late a x y
sender_turn-Joint k (sleeps_late a x y) = tt
sender_turn-Joint k (tests_started a x) = locks_early a x
sender_turn-Joint k (locks_early a x) = tt
sender_turn-Joint k (tests_hearing a x) = locks a x
sender_turn-Joint k (locks a x) = sends a k
sender_turn-Joint k (sends a j) = listens a j
sender_turn-Joint k (listens a j) = tt
sender_turn-Joint k (answered a j) = tt
sender_turn-Joint k (answered_hearing a j) = sends a j
sender_turn-Joint k (last_answer y) = last_end y
sender_turn-Joint k (ahead_entering a y) = end_entering a y
sender_turn-Joint k (ahead_starting a y) = tt
sender_turn-Joint k (ahead_looping a) = tt
sender_turn-Joint k (ahead_hearing a) = end_hearing a
sender_turn-Joint k (last_end y) = ended 0 y
sender_turn-Joint k (end_entering a y) = tests a 0 y
sender_turn-Joint k (end_hearing a) = tests_hearing a 0
sender_turn-Joint k (ended x y) = tt

pub receiver_turn-Joint :
    (k : ℕ) {s : Duo} → Joint (suc k) s → Stays (suc k) (turn (suc k) receiver s)
receiver_turn-Joint k (tests a x y) = tests_late a x y
receiver_turn-Joint k (sleeps a x y) = sleeps_late a x y
receiver_turn-Joint k (tests_late a x y) = tests_started a x
receiver_turn-Joint k (sleeps_late a x y) = tests_started a x
receiver_turn-Joint k (tests_started a x) = tests_hearing a x
receiver_turn-Joint k (locks_early a x) = locks a x
receiver_turn-Joint k (tests_hearing a x) = tt
receiver_turn-Joint k (locks a x) = tt
receiver_turn-Joint k (sends a j) = tt
receiver_turn-Joint k (listens a j) = answered a j
receiver_turn-Joint k (answered a (suc j)) = answered_hearing a j
receiver_turn-Joint k (answered zero zero) = last_answer 0
receiver_turn-Joint k (answered (suc a) zero) = ahead_entering a 0
receiver_turn-Joint k (answered_hearing a j) = tt
receiver_turn-Joint k (last_answer y) = tt
receiver_turn-Joint k (ahead_entering a y) = ahead_starting a y
receiver_turn-Joint k (ahead_starting a y) = ahead_looping a
receiver_turn-Joint k (ahead_looping a) = ahead_hearing a
receiver_turn-Joint k (ahead_hearing a) = tt
receiver_turn-Joint k (last_end y) = tt
receiver_turn-Joint k (end_entering a y) = tt
receiver_turn-Joint k (end_hearing a) = tt
receiver_turn-Joint k (ended x y) = tt

pub begin-Joint : (k major : ℕ) → Joint (suc k) (begin major)
begin-Joint k zero = ended 0 0
begin-Joint k (suc major) = tests major 0 0
