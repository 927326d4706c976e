-- ===== src/Barrier/Stuck.antt =====
-- The parent can miss its signal: then it waits for ever, although all threads are done.
use mathlib.Core.Bool.{true≢false}
use rtmb.Barrier.{
  counting, signalling, checking, going, asleep, finished, arrive, leave, see_all, wake_all,
  see_zero, see_some, fall_asleep, wake_early, begin, next, Step, Parent, Reach, Crew,
}
use rtmb.Barrier.Invariant.{place_at, Reach-IsCounted, IsCounted}
use rtmb.Base.{
  ◌==◌, ◌-◌, ◌<◌, ◌+◌, if◌then◌else◌, suc, zero, true, sym, ap, Bool, arith, dec_lt, ◌⊎◌, ◌≡◌, ℕ,
  inr, inl, false, refl,
}

-- Where a run without spurious wakeups can end: behind the loop, or in a wait that nobody ends.
pub data IsEnd (total : ℕ) (s : Crew) : Type 0 where
  completed : s.parent ≡ finished → s.done ≡ total → IsEnd total s
  lost : s.parent ≡ asleep → s.done ≡ total → s.counter ≡ 0 → IsEnd total s

Parent-cases :
    (total : ℕ) (s : Crew) (p : Parent)
    → s.parent ≡ p
    → IsCounted total s
    → s.ready ≡ 0
    → s.awake ≡ 0
    → IsEnd total s ⊎ ((s' : Crew) × Step false total s s')
Parent-cases total s counting e is r a =
    let (awake, done) = place_at total s counting e is in
    inr (_, see_all e (omega (arith, is.all, is.inside)))
Parent-cases total s signalling e is r a = inr (_, wake_all e)
Parent-cases total s checking e is r a =
    let (ready, waiting) = place_at total s checking e is in
    inr (_, see_zero e (omega (arith, is.inside)))
Parent-cases total s going e is r a = inr (_, fall_asleep e)
Parent-cases total s asleep e is r a =
    let (ready, waiting) = place_at total s asleep e is in
    inl (lost e (omega (arith, is.all)) (omega (arith, is.inside)))
Parent-cases total s finished e is r a =
    let (ready, waiting, awake) = place_at total s finished e is in
    inl (completed e (omega (arith, is.all)))

-- A run without spurious wakeups never stops in the middle: in every state that it can reach a
-- step is possible, or all threads are done and the parent is behind its loop, or all threads are
-- done and the parent sleeps for ever.
pub Reach-progress :
    (total : ℕ) (s : Crew)
    → Reach false total s
    → IsEnd total s ⊎ ((s' : Crew) × Step false total s s')
Reach-progress total s r =
    let is = Reach-IsCounted total r in
    elim (dec_lt 0 s.ready) [
      | yes some_ready ↦ inr (_, arrive some_ready)
      | no none_ready ↦ elim (dec_lt 0 s.awake) [
        | yes some_awake ↦ inr (_, leave some_awake)
        | no none_awake ↦ Parent-cases total s s.parent refl is (omega arith) (omega arith)
      ]
    ]

abbrev crew : ℕ → ℕ → ℕ → ℕ → ℕ → Parent → Crew
crew counter ready waiting awake done parent = record {
  counter = counter;
  ready = ready;
  waiting = waiting;
  awake = awake;
  done = done;
  parent = parent;
}

-- A state that can be reached, with its numbers written in another way.
reached :
    {total c c' r r' w w' a a' d d' : ℕ} {p p' : Parent}
    → c ≡ c'
    → r ≡ r'
    → w ≡ w'
    → a ≡ a'
    → d ≡ d'
    → p ≡ p'
    → Reach false total (crew c r w a d p)
    → Reach false total (crew c' r' w' a' d' p')
reached ec er ew ea ed ep h = rw (← ec, ← er, ← ew, ← ea, ← ed, ← ep) h

arrived-Reach : (total k r : ℕ) → r + k ≡ total → Reach false total (crew k r k 0 0 counting)
arrived-Reach total zero r e = reached refl (omega arith) refl refl refl refl begin
arrived-Reach total (suc k) r e =
    reached (omega arith) (omega arith) (omega arith) refl refl refl
      (next (arrived-Reach total k (r + 1) (omega arith)) (arrive (omega arith)))

-- The parent has read the counter, and is about to wait.
going-Reach : (total : ℕ) → 0 < total → Reach false total (crew total 0 0 total 0 going)
going-Reach total h =
    let all = arrived-Reach total total 0 (omega arith) in
    reached refl refl refl (omega arith) refl refl
      (next (next (next all (see_all refl refl)) (wake_all refl)) (see_some refl h))

stays_going : (b : Bool) → (if b then going else going) ≡ going
stays_going true = refl
stays_going false = refl

left-Reach : (total d a : ℕ) → 0 < total → a + d ≡ total → Reach false total (crew a 0 0 a d going)
left-Reach total zero a h e =
    reached (omega arith) refl refl (omega arith) refl refl (going-Reach total h)
left-Reach total (suc d) a h e =
    reached (omega arith) refl refl (omega arith) (omega arith) (stays_going (a + 1 - 1 == 0))
      (next (left-Reach total d (a + 1) h (omega arith)) (leave (omega arith)))

-- The parent reads `counter` before the threads are done, and waits after their signal.
abbrev pub missed : ℕ → Crew
missed total = crew 0 0 0 0 total asleep

pub missed-Reach : (total : ℕ) → 0 < total → Reach false total (missed total)
missed-Reach total h = next (left-Reach total total 0 h (omega arith)) (fall_asleep refl)

is_asleep : Parent → Bool
is_asleep counting = false
is_asleep signalling = false
is_asleep checking = false
is_asleep going = false
is_asleep asleep = true
is_asleep finished = false

missed-stuck : (total : ℕ) (s : Crew) → ¬ Step false total (missed total) s
unfolding is_asleep
missed-stuck total s (arrive h) = omega arith
missed-stuck total s (leave h) = omega arith
missed-stuck total s (see_all e full) = true≢false (ap is_asleep e)
missed-stuck total s (wake_all e) = true≢false (ap is_asleep e)
missed-stuck total s (see_zero e z) = true≢false (ap is_asleep e)
missed-stuck total s (see_some e h) = true≢false (ap is_asleep e)
missed-stuck total s (fall_asleep e) = true≢false (ap is_asleep e)
missed-stuck total s (wake_early e h) = true≢false (sym e)

-- Even without spurious wakeups the parent can be left waiting for ever: for every number of threads
-- there is a run after which no step is possible, with all threads done and the parent in its wait.
pub missed-IsEnd :
    (total : ℕ)
    → 0 < total
    → Reach false total (missed total)
      × ((missed total).done ≡ total)
      × ((missed total).parent ≡ asleep)
      × ((s' : Crew) → ¬ Step false total (missed total) s')
missed-IsEnd total h = (missed-Reach total h, refl, refl, missed-stuck total)
