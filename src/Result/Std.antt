-- ===== src/Result/Std.antt =====
-- `compute_std_time`: the mean and the deviation of the recorded times.
use rtmb.Base.{ℕ, ◌+◌, ◌*◌, ◌<◌, ◌≡◌, refl, Bool, true, false, List, ◌++◌, length, ok}
use rtmb.Base.Int.{ℤ, pos, quot}
use rtmb.Long.{long_bound, div_long-ok, div_long}
use rtmb.Double.{Double}
use rtmb.Result.{TestResults, compute_std_time, sum_values, sum_squares}
use rtmb.Result.Sum.{AllWithin, total, squares, mean_of, sum_values-total, sum_squares-squares}

-- The recorded times are the used part of the array.
pub record HasTimes {F : Type 0} (r : TestResults F) (ts rest : List ℤ) : Type 0 where
  pub array : r.values ≡ ts ++ rest
  pub used : r.num_entries ≡ length ts

module _ {F : Type 0} ⦃d : Double F⦄ where
  -- The deviation of the times, in the arithmetic of the code.
  abbrev pub deviation_of : List ℤ → F
  deviation_of ts = d.to_float (d.sqrt (d.of_int (quot (squares (mean_of ts) ts) (length ts))))

  abbrev pub with_stats : TestResults F → List ℤ → TestResults F
  with_stats r ts = record r { meantime = mean_of ts; stdtime = deviation_of ts }

  -- The four steps of `compute_std_time`, at the fields of the result.
  record Steps (r : TestResults F) (ts : List ℤ) : Type 0 where
    summed : sum_values r.num_entries r.values (pos 0) ≡ ok (total ts)
    mean : div_long (total ts) r.num_entries ≡ ok (mean_of ts)
    squared : sum_squares r.num_entries r.values (mean_of ts) (pos 0) ≡ ok (squares (mean_of ts) ts)
    variance :
        div_long (squares (mean_of ts) ts) r.num_entries
        ≡ ok (quot (squares (mean_of ts) ts) (length ts))

  HasTimes-Steps :
      (r : TestResults F) (ts rest : List ℤ) (b : ℕ)
      → HasTimes r ts rest
      → 0 < length ts
      → AllWithin b ts
      → length ts * ((b + b) * (b + b)) < long_bound
      → Steps r ts
  HasTimes-Steps r ts rest b is some all small = record {
    summed = rw (is.used, is.array) (sum_values-total b ts rest all small);
    mean = rw is.used (div_long-ok (total ts) (length ts) some);
    squared = rw (is.used, is.array) (sum_squares-squares b ts rest all small some);
    variance = rw is.used (div_long-ok _ (length ts) some);
  }

  Steps-run :
      (r : TestResults F) (ts : List ℤ) (synch : Bool)
      → Steps r ts
      → (synch ≡ true → r.locked ≡ false)
      → compute_std_time r synch ≡ ok (with_stats r ts)
  unfolding compute_std_time
  Steps-run r ts true s free = rw (free refl, s.summed, s.mean, s.squared, s.variance)
  Steps-run r ts false s free = rw (s.summed, s.mean, s.squared, s.variance)

  -- Where the lock is free or not asked for, with at least one time, all between `-b` and `b`, and `n * (2 * b) ^ 2` below `2 ^ 63`,
  -- `compute_std_time` returns without overflow, sets the mean and the deviation of the recorded
  -- times, and changes nothing else; a lock that it takes is given back.
  pub compute_std_time-with_stats :
      (r : TestResults F) (ts rest : List ℤ) (b : ℕ) (synch : Bool)
      → HasTimes r ts rest
      → (synch ≡ true → r.locked ≡ false)
      → 0 < length ts
      → AllWithin b ts
      → length ts * ((b + b) * (b + b)) < long_bound
      → compute_std_time r synch ≡ ok (with_stats r ts)
  compute_std_time-with_stats r ts rest b synch is free some all small =
      Steps-run r ts synch (HasTimes-Steps r ts rest b is some all small) free
