-- ===== src/Config/Readings.antt =====
-- The times that a loop over pairs of readings adds to a result.
use rtmb.Result.Add.{add_entry-Added}
use rtmb.Long.{long_bound}
use rtmb.Result.Finish.{Summary}
use rtmb.Result.Recorded.{IsResult}
use rtmb.Config.{add_difference}
use rtmb.Result.Sum.{AllWithin}
use rtmb.Result.Sorted.{Rearranges}
use rtmb.Result.{add_entry, TestResults}
use rtmb.Base.Int.{ℤ}
use rtmb.Double.{Double}
use rtmb.Clock.{get_time_diff, TimeSpec, Clock}
use rtmb.Base.{
  sym, ◌∙◌, Returns-map, Returns, ◌<◌, ◌+◌, ok, length-append, ◌≡◌, ◌∷◌, ◌*◌, arith, ◌++◌, length,
  [], List, ℕ, false, some,
}

AllWithin-append : (b : ℕ) (xs ys : List ℤ) → AllWithin b (xs ++ ys) → AllWithin b xs
AllWithin-append b [] ys all = tt
AllWithin-append b (x ∷ xs) ys all = (all.0, AllWithin-append b xs ys all.1)

-- The times all lie between `-b` and `b`, and the sums of their squares fit.
pub record Fit (b : ℕ) (ts : List ℤ) : Type 0 where
  pub within : AllWithin b ts
  pub small : length ts * ((b + b) * (b + b)) < long_bound

pub Fit-append : (b : ℕ) (xs ys : List ℤ) → Fit b (xs ++ ys) → Fit b xs
Fit-append b xs ys fit = record {
  within = AllWithin-append b xs ys fit.within;
  small = grind (arith, fit.small, length-append xs ys);
}

module _ (clock : Clock) where
  -- From the `n`-th call on the clock gives pairs of readings that lie the times `ts` apart.
  pub data Readings : ℕ → List ℤ → Type 0 where
    finished : {n : ℕ} → Readings n []
    pair :
        {n : ℕ} {t : ℤ} {ts : List ℤ} (start end : TimeSpec)
        → clock n ≡ some start
        → clock (n + 1) ≡ some end
        → get_time_diff start end ≡ ok t
        → Readings (n + 2) ts
        → Readings n (t ∷ ts)

module _ {F : Type 0} ⦃d : Double F⦄ where
  -- A free result for `total` times that holds the times `ts`, with their statistics if they are all.
  pub record Holds (total : ℕ) (ts : List ℤ) (r : TestResults F) : Type 0 where
    pub holds : IsResult r ts
    pub free : r.locked ≡ false
    pub full : r.max_entries ≡ total
    pub summary : length ts ≡ total → Summary r ts

  module _ (qsort : (ℤ → ℤ → ℤ) → List ℤ → List ℤ) (q : Rearranges qsort) (b : ℕ) where
    pub add_entry-Holds :
        (total : ℕ) (ts : List ℤ) (t : ℤ) (r : TestResults F)
        → Holds total ts r
        → length ts < total
        → Fit b (ts ++ t ∷ [])
        → Returns (Holds total (ts ++ t ∷ [])) (add_entry qsort r t false)
    add_entry-Holds total ts t r is lt fit =
        Returns-map
          (add_entry-Added qsort q b r ts t false is.holds is.free (omega (arith, is.full))
            fit.within fit.small)
          λ r' a. record {
            holds = a.holds;
            free = a.unlocked;
            full = a.same_max ∙ is.full;
            summary = λ all. a.summary (all ∙ sym is.full);
          }

    pub add_difference-Holds :
        (start end : TimeSpec) (total : ℕ) (ts : List ℤ) (t : ℤ) (r : TestResults F)
        → get_time_diff start end ≡ ok t
        → Holds total ts r
        → length ts < total
        → Fit b (ts ++ t ∷ [])
        → Returns (Holds total (ts ++ t ∷ [])) (add_difference qsort start end r)
    unfolding add_difference
    add_difference-Holds start end total ts t r e is lt fit =
        rw e (add_entry-Holds total ts t r is lt fit)
