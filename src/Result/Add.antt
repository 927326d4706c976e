-- ===== src/Result/Add.antt =====
-- `add_entry`: one more time, its effect on the extremes, the lock and the statistics.
use mathlib.Core.Path.{subst}
use rtmb.Base.{
  ℕ, Returns-map, ◌+◌, ◌*◌, ◌<◌, ◌≡◌, refl, ap, sym, ◌∙◌, ◌==◌, Bool, true, false, List, [], ◌∷◌,
  ◌++◌, arith, length, length-append, Run, ok, Returns, returns, Returns-bind, Bool-cases, inl, inr,
  ◌>>=◌, lt→ltb, le→leb,
}
use rtmb.Base.Int.{ℤ, ◌≤ℤ◌}
use rtmb.Long.{long_bound}
use rtmb.Double.{Double}
use rtmb.Result.{
  TestResults, update_extremes, finish_entries, add_entry, lock_if, unlock_if, assign,
}
use rtmb.Result.Sum.{AllWithin, AllBetween, mean_of-between}
use rtmb.Result.Extremes.{AreExtremes}
use rtmb.Result.Sorted.{Rearranges}
use rtmb.Result.Recorded.{
  IsResult, recorded, update_extremes-max_entries, update_extremes-locked, recorded-IsResult,
}
use rtmb.Result.Finish.{Summary, Added, IsResult-locked, Finished, finish_entries-Finished}

nonempty : (ts : List ℤ) (t : ℤ) → 0 < length (ts ++ t ∷ [])
nonempty ts t = omega (arith, length-append {0} ts (t ∷ []))

between_extremes :
    (lo hi : ℤ) (ts : List ℤ) → 0 < length ts → AreExtremes lo hi ts → AllBetween lo hi ts
between_extremes lo hi [] h ex = absurd (omega arith)
between_extremes lo hi (x ∷ xs) h ex = ex.0

module _ {F : Type 0} ⦃d : Double F⦄ where
  module _ (qsort : (ℤ → ℤ → ℤ) → List ℤ → List ℤ) (q : Rearranges qsort) (b : ℕ) where
    -- The write of `add_entry` goes to the first free element.
    entries-step :
        (r : TestResults F) (t : ℤ) (k : TestResults F → Run (TestResults F))
        → r.num_entries < length r.values
        → (assign (update_extremes r t).values (update_extremes r t).num_entries t >>= λ vs.
            k (record (update_extremes r t) {
              values = vs;
              num_entries = (update_extremes r t).num_entries + 1;
            }))
          ≡ k (recorded r t)
    unfolding update_extremes
    entries-step r t k lt = elim (Bool-cases (r.num_entries == 0)) [
      | inl first ↦ rw first (rw (lt→ltb _ _ lt))
      | inr later ↦ rw later (rw (lt→ltb _ _ lt))
    ]

    entries-run :
        (r : TestResults F) (ts : List ℤ) (t : ℤ)
        → IsResult r ts
        → length ts < r.max_entries
        → AllWithin b (ts ++ t ∷ [])
        → length (ts ++ t ∷ []) * ((b + b) * (b + b)) < long_bound
        → Returns (Finished (recorded r t) (ts ++ t ∷ [])) (finish_entries qsort (recorded r t))
    entries-run r ts t is lt all small =
        finish_entries-Finished qsort q b (recorded r t) (ts ++ t ∷ [])
          (recorded-IsResult r ts t is lt) (omega (arith, length-append {0} ts (t ∷ []))) all small

    entries-fit :
        (r : TestResults F) (ts : List ℤ)
        → IsResult r ts
        → length ts < r.max_entries
        → r.num_entries < length r.values
    entries-fit r ts is lt =
        let long : length r.values ≡ length ts + length is.rest =
          ap length is.times.array ∙ length-append ts is.rest in
        omega (arith, is.times.used, is.room)

    lock-free :
        (r : TestResults F) → r.locked ≡ false → lock_if true r ≡ ok (record r { locked = true })
    lock-free r free = rw free

    Finished-Added :
        (r : TestResults F) (t : ℤ) (r' : TestResults F) (ts : List ℤ)
        → r.locked ≡ false
        → Finished (recorded r t) ts r'
        → Added r ts r'
    Finished-Added r t r' ts free f = record {
      holds = f.holds;
      unlocked = f.same_lock ∙ update_extremes-locked r t ∙ free;
      same_max = f.same_max ∙ update_extremes-max_entries r t;
      summary = λ e. f.summary (e ∙ sym (update_extremes-max_entries r t));
    }

    Summary-unlocked :
        (r : TestResults F) (ts : List ℤ) → Summary r ts → Summary (record r { locked = false }) ts
    Summary-unlocked r ts s = record {
      mean = s.mean;
      deviation = s.deviation;
      median = s.median;
      is_median = s.is_median;
      median_time = s.median_time;
    }

    Finished-unlocked :
        (r : TestResults F) (t : ℤ) (r' : TestResults F) (ts : List ℤ)
        → Finished (recorded (record r { locked = true }) t) ts r'
        → Added r ts (record r' { locked = false })
    Finished-unlocked r t r' ts f = record {
      holds = IsResult-locked r' ts false f.holds;
      unlocked = refl;
      same_max = f.same_max ∙ update_extremes-max_entries (record r { locked = true }) t;
      summary = λ e.
          Summary-unlocked r' ts
            (f.summary (e ∙ sym (update_extremes-max_entries (record r { locked = true }) t)));
    }

    pub add_entry-Added :
        (r : TestResults F) (ts : List ℤ) (t : ℤ) (synch : Bool)
        → IsResult r ts
        → r.locked ≡ false
        → length ts < r.max_entries
        → AllWithin b (ts ++ t ∷ [])
        → length (ts ++ t ∷ []) * ((b + b) * (b + b)) < long_bound
        → Returns (Added r (ts ++ t ∷ [])) (add_entry qsort r t synch)
    unfolding add_entry
    add_entry-Added r ts t false is free lt all small =
        rw
          (
            le→leb (r.num_entries + 1) r.max_entries (omega (arith, is.times.used)),
            entries-step r t (λ r1. finish_entries qsort r1 >>= λ r2. ok (unlock_if false r2))
                (entries-fit r ts is lt),
          )
          (Returns-bind (entries-run r ts t is lt all small)
            λ r' f. returns (Finished-Added r t r' (ts ++ t ∷ []) free f))
    add_entry-Added r ts t true is free lt all small =
        let taken = IsResult-locked r ts true is in
        rw
          (
            le→leb (r.num_entries + 1) r.max_entries (omega (arith, is.times.used)),
            lock-free r free,
            entries-step (record r { locked = true }) t
                (λ r1. finish_entries qsort r1 >>= λ r2. ok (unlock_if true r2))
                (entries-fit r ts is lt),
          )
          (Returns-bind (entries-run (record r { locked = true }) ts t taken lt all small)
            λ r' f. returns (Finished-unlocked r t r' (ts ++ t ∷ []) f))

    -- Under the same conditions, once the array is full the mean lies between the least and the
    -- largest time.
    pub add_entry-mean_between :
        (r : TestResults F) (ts : List ℤ) (t : ℤ) (synch : Bool)
        → IsResult r ts
        → r.locked ≡ false
        → length ts + 1 ≡ r.max_entries
        → AllWithin b (ts ++ t ∷ [])
        → length (ts ++ t ∷ []) * ((b + b) * (b + b)) < long_bound
        → Returns
            (λ r'. (r'.mintime ≤ℤ r'.meantime) × (r'.meantime ≤ℤ r'.maxtime))
            (add_entry qsort r t synch)
    add_entry-mean_between r ts t synch is free full all small =
        Returns-map (add_entry-Added r ts t synch is free (omega arith) all small) λ r' a.
          let ne = nonempty ts t in
          let s = a.summary (omega (arith, length-append {0} ts (t ∷ []))) in
          let within = between_extremes r'.mintime r'.maxtime (ts ++ t ∷ []) ne a.holds.extremes in
          let (lo, hi) = mean_of-between r'.mintime r'.maxtime (ts ++ t ∷ []) ne within in
          (
            subst (λ m. r'.mintime ≤ℤ m) (sym s.mean) lo,
            subst (λ m. m ≤ℤ r'.maxtime) (sym s.mean) hi,
          )
