-- ===== src/Dispatch/Ending.antt =====
-- The two threads can come to their end from wherever they got to without a spurious wakeup.
use rtmb.Dispatch.Heard.{take_events-Joint}
use rtmb.Dispatch.Turns.{
  ended, end_hearing, end_entering, last_end, ahead_hearing, ahead_looping, ahead_starting,
  ahead_entering, last_answer, answered_hearing, answered, listens, sends, locks, tests_hearing,
  locks_early, tests_started, sleeps_late, tests_late, begin-Joint, sleeps, tests, duo, Joint,
}
use rtmb.Dispatch.{
  Event, take_events, calm, looping, hearing, entering, testing, locking, held, through,
  receiver_next, stirring, gone, free, begin, turn, take_turns, Thread, Duo, sender, receiver,
}
use rtmb.Base.{◌∙◌, ap, ◌≡◌, List, ℕ, false, true, some, none, suc, refl, [], ◌∷◌, zero}

-- Turns, with no spurious wakeup among them, that bring both threads to their end.
pub record Leads (sub : ℕ) (s : Duo) : Type 0 where
  pub schedule : List Thread
  pub x : ℕ
  pub y : ℕ
  pub led : take_turns sub schedule s ≡ duo free false gone 0 x through 0 y

via : (sub : ℕ) (who : Thread) (s s' : Duo) → turn sub who s ≡ some s' → Leads sub s' → Leads sub s
via sub who s s' e l = record {
  schedule = who ∷ l.schedule;
  x = l.x;
  y = l.y;
  led = ap (λ o. take_turns sub l.schedule (elim o [ none ↦ s | some s' ↦ s' ])) e ∙ l.led;
}

-- From a signal of the sender to the end of the iteration, and on.
answered-Leads :
    (sub a j : ℕ)
    → Leads sub (duo free false stirring (suc a) 1 (receiver_next a) a 0)
    → Leads sub (duo held false stirring (suc a) (suc j) looping (suc a) j)
answered-Leads sub a zero next = via sub receiver _ _ refl next
answered-Leads sub a (suc j) next = via sub receiver _ _ refl (
    via sub sender _ _ refl
      (via sub sender _ _ refl (via sub receiver _ _ refl (answered-Leads sub a j next))))

locks-Leads :
    (k a x : ℕ)
    → Leads (suc k) (duo free false stirring (suc a) 1 (receiver_next a) a 0)
    → Leads (suc k) (duo free false locking (suc a) x hearing (suc a) (suc k))
locks-Leads k a x next =
    via (suc k) sender _ _ refl (
      via (suc k) sender _ _ refl (via (suc k) receiver _ _ refl (answered-Leads (suc k) a k next)))

hearing-Leads :
    (k a x : ℕ)
    → Leads (suc k) (duo free false stirring (suc a) 1 (receiver_next a) a 0)
    → Leads (suc k) (duo free true testing (suc a) x hearing (suc a) (suc k))
hearing-Leads k a x next = via (suc k) sender _ _ refl (locks-Leads k a x next)

tests-Leads :
    (k a x y : ℕ)
    → Leads (suc k) (duo free false stirring (suc a) 1 (receiver_next a) a 0)
    → Leads (suc k) (duo free false testing (suc a) x entering (suc a) y)
tests-Leads k a x y next =
    via (suc k) receiver _ _ refl
      (via (suc k) receiver _ _ refl (via (suc k) receiver _ _ refl (hearing-Leads k a x next)))

done-Leads : (sub x y : ℕ) → Leads sub (duo free false gone 0 x through 0 y)
done-Leads sub x y = record { schedule = []; x = x; y = y; led = refl }

-- The sender's last wakeup in an iteration.
next-Leads : (k a y : ℕ) → Leads (suc k) (duo free false stirring (suc a) 1 (receiver_next a) a y)
next-Leads k zero y =
    via (suc k) sender _ _ refl (via (suc k) sender _ _ refl (done-Leads (suc k) 0 y))
next-Leads k (suc a) y =
    via (suc k) sender _ _ refl
      (via (suc k) sender _ _ refl (tests-Leads k a 0 y (next-Leads k a 0)))

Joint-Leads : (k : ℕ) {s : Duo} → Joint (suc k) s → Leads (suc k) s
Joint-Leads k (tests a x y) = tests-Leads k a x y (next-Leads k a 0)
Joint-Leads k (sleeps a x y) = via (suc k) receiver _ _ refl (
    via (suc k) receiver _ _ refl
      (via (suc k) receiver _ _ refl (hearing-Leads k a x (next-Leads k a 0))))
Joint-Leads k (tests_late a x y) =
    via (suc k) receiver _ _ refl
      (via (suc k) receiver _ _ refl (hearing-Leads k a x (next-Leads k a 0)))
Joint-Leads k (sleeps_late a x y) =
    via (suc k) receiver _ _ refl
      (via (suc k) receiver _ _ refl (hearing-Leads k a x (next-Leads k a 0)))
Joint-Leads k (tests_started a x) =
    via (suc k) receiver _ _ refl (hearing-Leads k a x (next-Leads k a 0))
Joint-Leads k (locks_early a x) =
    via (suc k) receiver _ _ refl (locks-Leads k a x (next-Leads k a 0))
Joint-Leads k (tests_hearing a x) = hearing-Leads k a x (next-Leads k a 0)
Joint-Leads k (locks a x) = locks-Leads k a x (next-Leads k a 0)
Joint-Leads k (sends a j) =
    via (suc k) sender _ _ refl
      (via (suc k) receiver _ _ refl (answered-Leads (suc k) a j (next-Leads k a 0)))
Joint-Leads k (listens a j) =
    via (suc k) receiver _ _ refl (answered-Leads (suc k) a j (next-Leads k a 0))
Joint-Leads k (answered a j) = answered-Leads (suc k) a j (next-Leads k a 0)
Joint-Leads k (answered_hearing a j) = via (suc k) sender _ _ refl (
    via (suc k) sender _ _ refl
      (via (suc k) receiver _ _ refl (answered-Leads (suc k) a j (next-Leads k a 0))))
Joint-Leads k (last_answer y) = next-Leads k 0 y
Joint-Leads k (ahead_entering a y) = next-Leads k (suc a) y
Joint-Leads k (ahead_starting a y) = via (suc k) receiver _ _ refl (
    via (suc k) receiver _ _ refl (
      via (suc k) sender _ _ refl
        (via (suc k) sender _ _ refl (hearing-Leads k a 0 (next-Leads k a 0)))))
Joint-Leads k (ahead_looping a) = via (suc k) receiver _ _ refl (
    via (suc k) sender _ _ refl
      (via (suc k) sender _ _ refl (hearing-Leads k a 0 (next-Leads k a 0))))
Joint-Leads k (ahead_hearing a) =
    via (suc k) sender _ _ refl
      (via (suc k) sender _ _ refl (hearing-Leads k a 0 (next-Leads k a 0)))
Joint-Leads k (last_end y) = via (suc k) sender _ _ refl (done-Leads (suc k) 0 y)
Joint-Leads k (end_entering a y) =
    via (suc k) sender _ _ refl (tests-Leads k a 0 y (next-Leads k a 0))
Joint-Leads k (end_hearing a) = via (suc k) sender _ _ refl (hearing-Leads k a 0 (next-Leads k a 0))
Joint-Leads k (ended x y) = done-Leads (suc k) x y

-- Both loops run `major` times over `suc k` rounds. Whatever turns were taken, there are further
-- turns after which both threads are at their end, with no iteration left and the lock free, as long
-- as no spurious wakeup ends a wait of the two loops early (one of the wait on `ready_condn` does no
-- harm): without such a wakeup no order of their steps leaves the two threads waiting for each other.
pub take_events-Leads :
    (k major : ℕ) (events : List Event)
    → calm events ≡ true
    → Leads (suc k) (take_events (suc k) events (begin major))
take_events-Leads k major events h =
    Joint-Leads k (take_events-Joint k events (begin major) h (begin-Joint k major))
