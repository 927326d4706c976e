-- ===== src/Result/Finish.antt =====
-- The statistics that `add_entry` computes at the last entry.
use rtmb.Base.{
  ℕ, ◌+◌, ◌*◌, ◌<◌, ◌≡◌, refl, ◌==◌, Bool, true, false, List, arith, length, Returns, returns,
  Returns-bind, Bool-cases, inl, inr,
}
use rtmb.Base.Int.{ℤ}
use rtmb.Long.{long_bound}
use rtmb.Double.{Double}
use rtmb.Result.{TestResults, get_median, finish_entries}
use rtmb.Result.Sum.{AllWithin, mean_of, pair-lt}
use rtmb.Result.Sorted.{Rearranges}
use rtmb.Result.Std.{HasTimes, deviation_of, with_stats, compute_std_time-with_stats}
use rtmb.Result.Median.{MedianOf, get_median-MedianOf}
use rtmb.Result.Recorded.{IsResult}

module _ {F : Type 0} ⦃d : Double F⦄ where
  -- The statistics are those of the times `ts`.
  pub record Summary (r : TestResults F) (ts : List ℤ) : Type 0 where
    pub mean : r.meantime ≡ mean_of ts
    pub deviation : r.stdtime ≡ deviation_of ts
    pub median : F
    pub is_median : MedianOf ts median
    pub median_time : r.mediantime ≡ d.to_int median

  -- What `add_entry` leaves: the times, the free lock, and the statistics of a full array.
  pub record Added (r : TestResults F) (ts : List ℤ) (r' : TestResults F) : Type 0 where
    pub holds : IsResult r' ts
    pub unlocked : r'.locked ≡ false
    pub same_max : r'.max_entries ≡ r.max_entries
    pub summary : length ts ≡ r.max_entries → Summary r' ts

  -- The lock and the statistics are no part of what `IsResult` says.
  pub IsResult-stats :
      (r : TestResults F) (ts us : List ℤ) (m : ℤ) (b : Bool)
      → IsResult r ts
      → IsResult (record (with_stats r us) { mediantime = m; locked = b }) ts
  IsResult-stats r ts us m b is = record {
    rest = is.rest;
    times = record { array = is.times.array; used = is.times.used };
    room = is.room;
    extremes = is.extremes;
  }

  pub IsResult-locked :
      (r : TestResults F) (ts : List ℤ) (b : Bool)
      → IsResult r ts
      → IsResult (record r { locked = b }) ts
  IsResult-locked r ts b is = record {
    rest = is.rest;
    times = record { array = is.times.array; used = is.times.used };
    room = is.room;
    extremes = is.extremes;
  }

  -- What stays true when the lock is given back.
  pub record Finished (r : TestResults F) (ts : List ℤ) (r' : TestResults F) : Type 0 where
    pub holds : IsResult r' ts
    pub same_lock : r'.locked ≡ r.locked
    pub same_max : r'.max_entries ≡ r.max_entries
    pub summary : length ts ≡ r.max_entries → Summary r' ts

  module _ (qsort : (ℤ → ℤ → ℤ) → List ℤ → List ℤ) (q : Rearranges qsort) (b : ℕ) where
    pub median-Returns :
        (r : TestResults F) (ts rest : List ℤ)
        → HasTimes r ts rest
        → 0 < length ts
        → AllWithin b ts
        → 2 * b < long_bound
        → Returns {A = F} (MedianOf ts) (get_median qsort r.values r.num_entries)
    median-Returns r ts rest is ne all small =
        rw (is.used, is.array) (get_median-MedianOf qsort q ts rest b ne all small)

    pub finish_entries-full :
        (r : TestResults F) (ts : List ℤ)
        → IsResult r ts
        → (r.num_entries == r.max_entries) ≡ true
        → 0 < length ts
        → AllWithin b ts
        → length ts * ((b + b) * (b + b)) < long_bound
        → Returns (Finished r ts) (finish_entries qsort r)
    unfolding finish_entries
    finish_entries-full r ts is full ne all small =
        rw (full, compute_std_time-with_stats r ts is.rest b false is.times (λ e. cc) ne all small)
          (Returns-bind
            (median-Returns r ts is.rest is.times ne all (pair-lt (length ts) b ne small))
            λ f median. returns (record {
              holds = IsResult-stats r ts ts (d.to_int f) r.locked is;
              same_lock = refl;
              same_max = refl;
              summary = λ e. record {
                mean = refl;
                deviation = refl;
                median = f;
                is_median = median;
                median_time = refl;
              };
            }))

    pub finish_entries-more :
        (r : TestResults F) (ts : List ℤ)
        → IsResult r ts
        → (r.num_entries == r.max_entries) ≡ false
        → Returns (Finished r ts) (finish_entries qsort r)
    unfolding finish_entries
    finish_entries-more r ts is more = rw more (
        returns (record {
          holds = is;
          same_lock = refl;
          same_max = refl;
          summary = λ e. absurd (ground (arith, is.times.used));
        }))

    pub finish_entries-Finished :
        (r : TestResults F) (ts : List ℤ)
        → IsResult r ts
        → 0 < length ts
        → AllWithin b ts
        → length ts * ((b + b) * (b + b)) < long_bound
        → Returns (Finished r ts) (finish_entries qsort r)
    finish_entries-Finished r ts is ne all small =
        elim (Bool-cases (r.num_entries == r.max_entries)) [
          | inl full ↦ finish_entries-full r ts is full ne all small
          | inr more ↦ finish_entries-more r ts is more
        ]
