-- ===== src/Periodic/Examples.antt =====
-- Two events, and a third signal that comes with the second: nothing comes in the second wait.
use rtmb.Result.Insertion.{insertion_sort-Rearranges, insertion_sort}
use rtmb.Result.Create.{cleared}
use rtmb.Periodic.{null, epoch, Events}
use rtmb.Config.Readings.{Fit, Holds}
use rtmb.Clock.Difference.{convert_time_to_nsec-nanoseconds, IsTime}
use rtmb.Clock.{TimeSpec}
use rtmb.Base.Int.{success, ℤ, ◌-ℤ◌, pos}
use rtmb.Double.Whole.{whole}
use rtmb.Periodic.Lags.{fires, run_then_add, at_end, lags, at_next, AreAt, do_run-lags}
use rtmb.Base.{replicate, ◌≡◌, ◌<◌, arith, List, ℕ, Returns, suc, zero, refl, [], ◌∷◌, false}

abbrev reading : ℕ → TimeSpec
reading ns = record { tv_sec = pos 12; tv_nsec = pos ns }

abbrev waits : ℕ → List TimeSpec
waits zero = reading 5 ∷ []
waits (suc zero) = []
waits (suc (suc k)) = reading 12 ∷ reading 20 ∷ []

abbrev start : TimeSpec
start = record { tv_sec = pos 7; tv_nsec = pos 3 }

abbrev idle : Events
idle = record {
  start_time = epoch;
  period = epoch;
  events_to_fire = 0;
  events_fired = 0;
  dispatch_times = null;
  done = false;
}

reading-IsTime : (ns : ℕ) → ns < 1000 → IsTime (reading ns) 12 ns
reading-IsTime ns h = record {
  sec = refl;
  nsec = refl;
  sec_bound = omega arith;
  nsec_bound = omega arith;
}

start-IsTime : IsTime start 7 3
start-IsTime = record { sec = refl; nsec = refl; sec_bound = omega arith; nsec_bound = omega arith }

readings-AreAt : AreAt (reading 5 ∷ reading 12 ∷ []) (12000000005 ∷ 12000000012 ∷ [])
readings-AreAt =
    at_next (convert_time_to_nsec-nanoseconds _ 12 5 (reading-IsTime 5 (omega arith))) (omega arith)
      (at_next (convert_time_to_nsec-nanoseconds _ 12 12 (reading-IsTime 12 (omega arith)))
        (omega arith) at_end)

lags-Fit : Fit 10 (lags 12000000000 10 (12000000005 ∷ 12000000012 ∷ []))
unfolding ◌-ℤ◌
lags-Fit = record { within = omega arith; small = omega arith }

fresh-Holds : Holds {F = ℤ} 2 [] (cleared 2 2)
fresh-Holds = record {
  holds = record {
    rest = replicate 2 (pos 0);
    times = record { array = refl; used = refl };
    room = omega arith;
    extremes = tt;
  };
  free = refl;
  full = refl;
  summary = λ e. absurd (omega arith);
}

do_run-lags_example :
    Returns
      (λ o. (o.0 ≡ success) × Holds 2 (lags 12000000000 10 (12000000005 ∷ 12000000012 ∷ [])) (o.1))
      (run_then_add insertion_sort (pos 10) (fires start waits) 4 2 1 idle (cleared {F = ℤ} 2 2))
do_run-lags_example =
    do_run-lags insertion_sort insertion_sort-Rearranges 10 10 7 3 3 4 2 1 (pos 10) start waits
      (12000000005 ∷ 12000000012 ∷ []) idle (cleared 2 2) start-IsTime (omega arith) refl
      (omega arith) (omega arith) (omega arith) refl readings-AreAt (omega arith) lags-Fit
      fresh-Holds
