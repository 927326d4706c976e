-- ===== src/Result/Examples.antt =====
-- Runs of result_mgmt.c on small results, over whole numbers in place of a `double`.
use rtmb.Base.{◌≡◌, refl, true, List, [], ◌∷◌, deadlock, fault, Returns, returns}
use rtmb.Base.Int.{ℤ, pos, quot, ◌+ℤ◌, ◌-ℤ◌, ◌*ℤ◌}
use rtmb.Params.{soft_rt, RtVals, InputParams}
use rtmb.Long.{add_long, sub_long, mul_long, div_long}
use rtmb.Result.Sample.{holding}
use rtmb.Result.{
  TestResults, add_entry, update_extremes, finish_entries, sum_values, sum_squares, copy_values,
  middle, get_median, compute_std_time, compare_numbers,
}
use rtmb.Result.Std.{HasTimes}
use rtmb.Result.Limits.{check_pass_criteria, check_pass_criteria-deadlock}
use rtmb.Result.Insertion.{insertion_sort}
use rtmb.Double.Whole.{whole}

-- Two of three times are recorded.
abbrev times : List ℤ
times = pos 30 ∷ pos 10 ∷ []

abbrev partial : TestResults ℤ
partial = holding (pos 30 ∷ pos 10 ∷ pos 0 ∷ []) 2 3 (pos 10) (pos 30)

partial-HasTimes : HasTimes partial times (pos 0 ∷ [])
partial-HasTimes = record { array = refl; used = refl }

-- The last time makes the statistics: the mean of 30, 10 and 23 is 21, their median 23.
last_time :
    Returns
      (λ r. (r.meantime ≡ pos 21) × (r.mediantime ≡ pos 23) × (r.mintime ≡ pos 10))
      (add_entry insertion_sort partial (pos 23) true)
unfolding add_entry update_extremes finish_entries compute_std_time sum_values sum_squares
    get_median copy_values middle compare_numbers insertion_sort add_long sub_long mul_long div_long
    quot ◌+ℤ◌ ◌-ℤ◌ ◌*ℤ◌
last_time = returns (refl, refl, refl)

abbrev vals : RtVals ℤ
vals = record { acceptable_percentage = pos 99; range_percentage = pos 50; multiplier = pos 1 }

abbrev params : InputParams ℤ
params = record { tests = []; hrt = vals; srt = vals; grt = vals }

check_pass_criteria-deadlock_example :
    check_pass_criteria partial soft_rt params true ≡ fault deadlock
check_pass_criteria-deadlock_example =
    check_pass_criteria-deadlock partial times (pos 0 ∷ []) soft_rt params partial-HasTimes
