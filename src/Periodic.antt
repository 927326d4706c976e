-- ===== src/Periodic.antt =====
-- `periodic_event` of rtmb_c/src/testcase/periodic_event_test/periodic_event_test.c: a timer fires a
-- signal at fixed times, whose handler writes down when it ran. The static variables of the file are
-- a record, and `dispatch_times` may be `NULL`, dangling or a block. What the calls of the system
-- answer, and the readings of the clock by the signals that come during a wait, are arguments.
-- Printing has no part in it.
pub mod Fired
pub mod Waits
pub mod Times
mod Examples
pub mod Lags
use rtmb.Score.{element_at}
use rtmb.Result.Create.{create_test_result}
use rtmb.Table.{add_result_to_result_table2, get_ideal_sleep_time, ResultTable}
use rtmb.Base.{[], ◌∷◌}
use rtmb.Config.{eqb_ℤ}
use rtmb.Result.Limits.{check_pass_criteria}
use rtmb.Long.{mul_long, sub_long, add_long}
use rtmb.Result.{add_entry, TestResults}
use rtmb.Params.{BenchmarkTest, InputParams, RtMode}
use rtmb.Double.{Double}
use rtmb.Clock.{billion, convert_time_to_nsec, TimeSpec}
use rtmb.Base.Int.{success, quot, neg_part, pos_part, error, sub_ℕ, ℤ, pos}
use rtmb.Base.{
  set, length, out_of_bounds, ltb, ◌%◌, if◌then◌else◌, get_elem?, ◌∷◌, ◌+◌, bad_pointer, aborted,
  replicate, out_of_fuel, ok, fault, ℕ, Run, Option, List, Bool, ◌>>=◌, false, true, some, none,
  suc, zero,
}

-- `PERIODIC_EVENTS_TEST`
abbrev pub periodic_events_test : ℕ
periodic_events_test = 12

-- What `calloc` leaves in a `struct timespec`.
abbrev pub epoch : TimeSpec
epoch = record { tv_sec = pos 0; tv_nsec = pos 0 }

-- The static pointer `dispatch_times`.
pub data Block : Type 0 where
  null dangling : Block
  block : List TimeSpec → Block

abbrev pub free : Block → Run Block
free null = ok null
free dangling = fault bad_pointer
free (block times) = ok dangling

pub record Events : Type 0 where
  pub start_time : TimeSpec
  pub period : TimeSpec
  pub events_to_fire : ℕ
  pub events_fired : ℕ
  pub dispatch_times : Block
  pub done : Bool

abbrev pub write_time : Block → ℕ → TimeSpec → Run Block
write_time null i t = fault bad_pointer
write_time dangling i t = fault bad_pointer
write_time (block times) i t =
    if ltb i (length times) then ok (block (set times i t)) else fault out_of_bounds

abbrev pub read_time : Block → ℕ → Run TimeSpec
read_time null i = fault bad_pointer
read_time dangling i = fault bad_pointer
read_time (block times) i = elim (get_elem? times i) [ none ↦ fault out_of_bounds | some t ↦ ok t ]

-- `timer_expiry_handler(SIGUSR1)`, with what `clock_gettime` gives it.
unfoldable pub timer_expiry_handler : Option TimeSpec → Events → Run Events
timer_expiry_handler none s = fault aborted
timer_expiry_handler (some fired_time) s =
    if s.done
    then ok s
    else if ltb s.events_fired s.events_to_fire
    then (do
      times ← write_time s.dispatch_times s.events_fired fired_time
      ok (record s { dispatch_times = times; events_fired = s.events_fired + 1 }))
    else ok (record s { done = true })

-- The signals that come during one wait.
unfoldable pub deliver : List (Option TimeSpec) → Events → Run Events
deliver [] s = ok s
deliver (r ∷ rs) s = do s ← timer_expiry_handler r s; deliver rs s

-- `while (!done)`: the k-th wait lasts until a signal comes or its time is up.
unfoldable pub wait_loop : (ℕ → List (Option TimeSpec)) → ℕ → ℕ → Events → Run Events
wait_loop signals zero k s = out_of_fuel
wait_loop signals (suc fuel) k s = elim s.done [
  | true ↦ ok s
  | false ↦ (do s ← deliver (signals k) s; wait_loop signals fuel (k + 1) s)
]

-- What the calls of the system in `do_run` answer, and the signals of its waits.
pub record Attempt : Type 0 where
  pub handler_set : Bool
  pub start : Option TimeSpec
  pub timer_made : Bool
  pub timer_set : Bool
  pub signals : ℕ → List (Option TimeSpec)

-- C's remainder by a positive divisor.
abbrev pub rem : ℤ → ℕ → ℤ
rem a n = sub_ℕ (pos_part a % n) (neg_part a % n)

unfoldable pub do_run : ℤ → Attempt → ℕ → ℕ → ℕ → Events → Run (ℤ × Events)
do_run time_accuracy a fuel iterations sub_iters s =
    let s = record s { dispatch_times = block (replicate iterations epoch) } in
    elim (a.handler_set) [
      | false ↦ ok (error, s)
      | true ↦ elim (a.start) [
        | none ↦ ok (error, s)
        | some start_time ↦ elim (a.timer_made) [
          | false ↦ ok (error, record s { start_time = start_time })
          | true ↦ (do
            sec ← add_long start_time.tv_sec (pos 5)
            nsecs ← mul_long time_accuracy (pos sub_iters)
            let armed = record s {
              start_time = record { tv_sec = sec; tv_nsec = pos 0 };
              period = record { tv_sec = quot nsecs billion; tv_nsec = rem nsecs billion };
              events_to_fire = iterations;
              events_fired = 0;
              done = false;
            }
            elim (a.timer_set) [
              | false ↦ ok (error, armed)
              | true ↦ (do s ← wait_loop a.signals fuel 0 armed; ok (success, s))
            ])
        ]
      ]
    ]

module _ {F : Type 0} ⦃d : Double F⦄ (qsort : (ℤ → ℤ → ℤ) → List ℤ → List ℤ) where
  -- The loop of `add_results`, `i` events in, with `expected_fire_time`.
  unfoldable pub add_lags : ℕ → ℕ → ℤ → ℤ → Block → TestResults F → Run (TestResults F)
  add_lags zero i per expected_fire_time times r = ok r
  add_lags (suc n) i per expected_fire_time times r = do
    fired ← read_time times i
    fired_ns ← convert_time_to_nsec fired
    time_diff ← sub_long fired_ns expected_fire_time
    expected_fire_time ← add_long expected_fire_time per
    r ← add_entry qsort r time_diff false
    add_lags n (i + 1) per expected_fire_time times r

  unfoldable pub add_results : ℕ → Events → TestResults F → Run (TestResults F)
  add_results iterations s r = do
    per ← convert_time_to_nsec s.period
    expected_fire_time ← convert_time_to_nsec s.start_time
    add_lags iterations 0 per expected_fire_time s.dispatch_times r

module _ {F : Type 0} ⦃d : Double F⦄ where
  unfoldable pub check_results : RtMode → InputParams F → TestResults F → Run (ℤ × TestResults F)
  check_results mode params r = do
    checked ← check_pass_criteria r mode params false
    ok (if eqb_ℤ checked.0 error then error else success, checked.1)

-- How the test ended.
pub record PeriodicEnd (F : Type 0) : Type 0 where
  pub ret : ℤ
  pub table : ResultTable F
  pub events : Events

module _ {F : Type 0} ⦃d : Double F⦄ (qsort : (ℤ → ℤ → ℤ) → List ℤ → List ℤ) (mode : RtMode)
    (params : InputParams F) (attempts : ℕ → Attempt) (fuel : ℕ) where
  -- The loop over `sub_iters`, `left` attempts before its end; `results` is `NULL` at first.
  unfoldable pub attempt_loop :
      ℤ
      → BenchmarkTest F
      → ℕ
      → ℕ
      → Option (TestResults F)
      → Events
      → Run (Option (TestResults F) × Events)
  attempt_loop time_accuracy test zero sub_iters results s = ok (results, s)
  attempt_loop time_accuracy test (suc left) sub_iters results s = do
    freed ← free s.dispatch_times
    created ← create_test_result 1 test.iterations
    result ← element_at created 0
    run ←
        do_run time_accuracy (attempts sub_iters) fuel (pos_part test.iterations) sub_iters
          (record s { dispatch_times = freed })
    elim (eqb_ℤ run.0 success) [
      | false ↦ attempt_loop time_accuracy test left (sub_iters + 1) (some result) run.1
      | true ↦ (do
        result ← add_results qsort (pos_part test.iterations) run.1 result
        checked ← check_results mode params result
        elim (eqb_ℤ checked.0 success) [
          | true ↦ ok (some checked.1, run.1)
          | false ↦ attempt_loop time_accuracy test left (sub_iters + 1) (some checked.1) run.1
        ])
    ]

  unfoldable pub periodic_event : ResultTable F → BenchmarkTest F → Events → Run (PeriodicEnd F)
  periodic_event table test s = do
    time_accuracy ← get_ideal_sleep_time table
    tried ← attempt_loop time_accuracy test (pos_part test.threshold) 1 none s
    freed ← free tried.1.dispatch_times
    elim (tried.0) [
      | none ↦ fault bad_pointer
      | some result ↦ (do
        table ← add_result_to_result_table2 table result periodic_events_test test
        ok (record {
          ret = success;
          table = table;
          events = record tried.1 { dispatch_times = freed };
        }))
    ]
