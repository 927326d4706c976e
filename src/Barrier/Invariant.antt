-- ===== src/Barrier/Invariant.antt =====
-- Without spurious wakeups no thread works before all have arrived, and the parent goes on only
-- when all are done.
use mathlib.Core.Path.{subst}
use mathlib.Core.Bool.{true≢false}
use rtmb.Barrier.{
  counting, signalling, checking, going, asleep, finished, arrive, leave, see_all, wake_all,
  see_zero, see_some, fall_asleep, wake_early, begin, next, signal_parent, lock_inc_counter,
  lock_dec_counter, Step, Reach, Parent, Crew,
}
use rtmb.Base.{sym, ◌==◌, ◌-◌, if◌then◌else◌, ◌≡◌, ◌<◌, arith, Bool, ◌+◌, ℕ, false, true, refl}

-- What holds of the numbers, by the place of the parent.
abbrev pub AtPlace : ℕ → Crew → Parent → Type 0
AtPlace total s counting = (s.awake ≡ 0) × (s.done ≡ 0)
AtPlace total s signalling = (s.awake ≡ 0) × (s.done ≡ 0) × (s.ready ≡ 0)
AtPlace total s checking = (s.ready ≡ 0) × (s.waiting ≡ 0)
AtPlace total s going = (s.ready ≡ 0) × (s.waiting ≡ 0)
AtPlace total s asleep = (s.ready ≡ 0) × (s.waiting ≡ 0)
AtPlace total s finished = (s.ready ≡ 0) × (s.waiting ≡ 0) × (s.awake ≡ 0)

-- Every thread is somewhere, and `counter` is the number of threads that are in.
pub record IsCounted (total : ℕ) (s : Crew) : Type 0 where
  pub all : s.ready + s.waiting + s.awake + s.done ≡ total
  pub inside : s.counter ≡ s.waiting + s.awake
  pub place : AtPlace total s s.parent

arrive-place :
    (total : ℕ) (s : Crew) (p : Parent)
    → 0 < s.ready
    → AtPlace total s p
    → AtPlace total (lock_inc_counter s) p
arrive-place total s counting h a = a
arrive-place total s signalling h a = absurd (omega (arith, a.2))
arrive-place total s checking h a = absurd (omega (arith, a.0))
arrive-place total s going h a = absurd (omega (arith, a.0))
arrive-place total s asleep h a = absurd (omega (arith, a.0))
arrive-place total s finished h a = absurd (omega (arith, a.0))

leave-place :
    (total : ℕ) (s : Crew) (p : Parent) (last : Bool)
    → 0 < s.awake
    → AtPlace total s p
    → AtPlace total (lock_dec_counter s) (if last then signal_parent p else p)
leave-place total s counting last h a = absurd (omega (arith, a.0))
leave-place total s signalling last h a = absurd (omega (arith, a.0))
leave-place total s checking true h a = a
leave-place total s checking false h a = a
leave-place total s going true h a = a
leave-place total s going false h a = a
leave-place total s asleep true h a = a
leave-place total s asleep false h a = a
leave-place total s finished last h a = absurd (omega (arith, a.2))

pub place_at :
    (total : ℕ) (s : Crew) (p : Parent) → s.parent ≡ p → IsCounted total s → AtPlace total s p
place_at total s p e is = subst (AtPlace total s) e is.place

Step-IsCounted :
    (total : ℕ) {s s' : Crew} → Step false total s s' → IsCounted total s → IsCounted total s'
Step-IsCounted total {s} (arrive h) is = record {
  all = omega (arith, is.all);
  inside = omega (arith, is.inside);
  place = arrive-place total s s.parent h is.place;
}
Step-IsCounted total {s} (leave h) is = record {
  all = omega (arith, is.all);
  inside = omega (arith, is.inside);
  place = leave-place total s s.parent (s.counter - 1 == 0) h is.place;
}
Step-IsCounted total {s} (see_all e full) is =
    let (awake, done) = place_at total s counting e is in
    record {
      all = is.all;
      inside = is.inside;
      place = (awake, done, omega (arith, is.all, is.inside));
    }
Step-IsCounted total {s} (wake_all e) is =
    let (awake, done, ready) = place_at total s signalling e is in
    record { all = omega (arith, is.all); inside = omega (arith, is.inside); place = (ready, refl) }
Step-IsCounted total {s} (see_zero e zero_now) is =
    let (ready, waiting) = place_at total s checking e is in
    record { all = is.all; inside = is.inside; place = (ready, waiting, omega (arith, is.inside)) }
Step-IsCounted total {s} (see_some e some_now) is = record {
  all = is.all;
  inside = is.inside;
  place = place_at total s checking e is;
}
Step-IsCounted total {s} (fall_asleep e) is = record {
  all = is.all;
  inside = is.inside;
  place = place_at total s going e is;
}
Step-IsCounted total {s} (wake_early e h) is = absurd (true≢false (sym e))

pub Reach-IsCounted : (total : ℕ) {s : Crew} → Reach false total s → IsCounted total s
Reach-IsCounted total begin = record {
  all = omega arith;
  inside = omega arith;
  place = (refl, refl);
}
Reach-IsCounted total (next r st) = Step-IsCounted total st (Reach-IsCounted total r)

none_early :
    (total : ℕ) (s : Crew) (p : Parent) → AtPlace total s p → 0 < s.awake + s.done → s.ready ≡ 0
none_early total s counting a h = absurd (omega (arith, a.0, a.1))
none_early total s signalling a h = a.2
none_early total s checking a h = a.0
none_early total s going a h = a.0
none_early total s asleep a h = a.0
none_early total s finished a h = a.0

-- Without spurious wakeups, whatever the order of the steps: once a thread has been woken, all
-- threads have arrived; `counter` is always the number of threads between counting in and counting
-- out; and behind its second loop the parent finds all threads done.
pub Reach-all_arrived :
    (total : ℕ) (s : Crew)
    → Reach false total s
    → (0 < s.awake + s.done → s.ready ≡ 0)
      × (s.counter ≡ s.waiting + s.awake)
      × (s.parent ≡ finished → s.done ≡ total)
Reach-all_arrived total s r =
    let is = Reach-IsCounted total r in
    (
      none_early total s s.parent is.place,
      is.inside,
      λ e. let (ready, waiting, awake) = place_at total s finished e is in omega (arith, is.all),
    )
