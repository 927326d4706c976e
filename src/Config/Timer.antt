-- ===== src/Config/Timer.antt =====
-- `timer_config` of rtmb_c/src/testcase/config_test/timer_config.c: the least time to sleep whose
-- length varies little enough.
pub mod Search
use rtmb.Result.Limits.{check_pass_criteria}
use rtmb.CString.{codes}
use rtmb.Score.{element_at}
use rtmb.Result.Create.{create_test_result}
use rtmb.Params.Percent.{fill_acceptable_percentages, get_range_percent, get_acceptable_percent}
use rtmb.Params.{RtMode, InputParams, BenchmarkTest}
use rtmb.Table.{get_min_exec_time, systimer_config, add_result_to_result_table2, ResultTable}
use rtmb.Result.Clone.{clone_results}
use rtmb.Clock.{Clock, refused, slept, interrupted, billion, TimeSpec, Sleeper}
use rtmb.Config.{eqb_ℤ, retry_fuel, judge, retry, add_difference, int_bound, Ended, double_int}
use rtmb.Result.{free_chain, compute_std_time, TestResults}
use rtmb.Double.{Double}
use rtmb.Base.Int.{pos_part, success, ◌-ℤ◌, ℤ, negsuc, pos}
use rtmb.Base.{
  ltb, arith_overflow, require, ◌>>◌, ◌||◌, ◌%◌, leb, if◌then◌else◌, aborted, fault, ◌/◌, ◌+◌,
  out_of_fuel, ok, List, Bool, Run, ℕ, ◌>>=◌, false, true, some, none, suc, zero,
}

-- `NANOSLEEP_TIME`
abbrev pub nanosleep_time : ℕ
nanosleep_time = 2000

-- `prev_num` and `num`, and their next values.
unfoldable pub next_num : ℕ × ℕ → Run (ℕ × ℕ)
next_num (prev_num, num) = do larger ← double_int num; ok (num, larger)

module _ {S : Type 0} where
  -- The binary search: `probe` measures an amount and tells whether it passed, and `keep` takes
  -- an amount that passed. The sum of the two ends is an `int`.
  module _ (probe : ℕ → S → Run (Bool × S)) (keep : ℕ → S → Run S) where
    unfoldable pub bisect : ℕ → ℕ → ℤ → S → Run S
    bisect zero start_quantum stop_quantum s = out_of_fuel
    bisect (suc fuel) start_quantum (negsuc stop_quantum) s = ok s
    bisect (suc fuel) start_quantum (pos stop_quantum) s =
        let mid_quantum = (start_quantum + stop_quantum) / 2 in
        let larger = bisect fuel (mid_quantum + 1) (pos stop_quantum) in
        let smaller = bisect fuel start_quantum (pos mid_quantum -ℤ pos 1) in
        if leb start_quantum stop_quantum
        then (do
          require arith_overflow (ltb (start_quantum + stop_quantum) int_bound)
          probed ← probe mid_quantum s
          if probed.0 then keep mid_quantum probed.1 >>= smaller else larger probed.1)
        else ok s

-- The request of `run_timer_test`.
abbrev pub request : ℕ → TimeSpec
request num = record { tv_sec = pos (num / billion); tv_nsec = pos (num % billion) }

-- The two results of the search and the calls of the clock up to then.
pub record Searched (F : Type 0) : Type 0 where
  pub result : TestResults F
  pub passed_result : TestResults F
  pub calls : ℕ

module _ {F : Type 0} where
  unfoldable pub keep_timer : ℕ → Searched F → Run (Searched F)
  keep_timer mid_quantum s =
      let r = record (s.result) { opern_amount = pos mid_quantum } in
      clone_results s.passed_result r >>= λ p. ok (record s { result = r; passed_result = p })

module _ {F : Type 0} ⦃d : Double F⦄ where
  -- `ACCEPTABLE_PCT_CFG_TEST`, 99.9, and `ACCEPTABLE_RANGE_CFG_TEST`, 20.
  abbrev acceptable_pct : F
  acceptable_pct = d.div (d.of_int (pos 999)) (d.of_int (pos 10))

  abbrev acceptable_range : F
  acceptable_range = d.of_int (pos 20)

module _ {F : Type 0} ⦃d : Double F⦄ (mode : RtMode) where
  -- The test of the search.
  unfoldable pub check_timer : F → InputParams F → TestResults F → Run (Bool × TestResults F)
  check_timer clk params r =
      if d.lt clk (d.of_int r.mediantime)
      then (do
        checked ← check_pass_criteria r mode params false
        ok (eqb_ℤ checked.0 success, checked.1))
      else ok (false, r)

  -- The parameters of the test: at least 99.9 per cent in a range of at most 20.
  unfoldable pub timer_params : F → F → InputParams F → InputParams F
  timer_params percentage range params =
      if d.lt (get_acceptable_percent params mode) percentage
        || d.lt range (get_range_percent params mode)
      then (fill_acceptable_percentages params mode percentage range true true).2
      else params

  -- The old values come back at the end, where they were replaced.
  unfoldable pub restore_params : F → F → InputParams F → InputParams F → InputParams F
  restore_params percentage range old params =
      if d.lt (get_acceptable_percent old mode) percentage
        || d.lt range (get_range_percent old mode)
      then (fill_acceptable_percentages params mode (get_acceptable_percent old mode)
          (get_range_percent old mode) false false).2
      else params

module _ {F : Type 0} ⦃d : Double F⦄ (qsort : (ℤ → ℤ → ℤ) → List ℤ → List ℤ) (clock : Clock)
    (nanosleep : Sleeper) where
  -- The loop of `run_timer_test`, which aborts where the clock or the sleep fails.
  unfoldable pub run_timer_test : ℕ → ℕ → ℕ → TestResults F → Run (TestResults F × ℕ)
  run_timer_test zero num n r = ok (r, n)
  run_timer_test (suc iters) num n r = elim (clock n) [
    | none ↦ fault aborted
    | some start_time ↦ elim (nanosleep n (request num)) [
      | interrupted rmtp ↦ fault aborted
      | refused ↦ fault aborted
      | slept ↦ elim (clock (n + 1)) [
        | none ↦ fault aborted
        | some end_time ↦ (do
          r ← add_difference qsort start_time end_time r
          run_timer_test iters num (n + 2) r)
      ]
    ]
  ]

  module _ (mode : RtMode) where
    -- The measurement of the search and its test.
    unfoldable pub probe_timer : F → InputParams F → ℕ → ℕ → Searched F → Run (Bool × Searched F)
    probe_timer clk params iters mid_quantum s = do
      r ← free_chain s.result false
      m ← run_timer_test iters mid_quantum s.calls r
      c ← check_timer mode clk params m.0
      ok (c.0, record s { result = c.1; calls = m.1 })

    -- What follows the first loop: the search, where a pass was found.
    unfoldable pub least_timer :
        F → InputParams F → ℕ → TestResults F → Ended F (ℕ × ℕ) → Run (TestResults F)
    least_timer clk params iters passed_result e =
        let result = record (e.result) { opern_amount = pos (e.amount.1) } in
        if e.passed
        then (do
          passed_result ← clone_results passed_result result
          s ←
              bisect (probe_timer clk params iters) keep_timer int_bound (e.amount.0)
                (pos (e.amount.1))
                (record { result = result; passed_result = passed_result; calls = e.calls })
          compute_std_time s.passed_result false)
        else ok result

    unfoldable pub measure_timer :
        ResultTable F → BenchmarkTest F → InputParams F → ℕ → Run (TestResults F)
    measure_timer table test params n = do
      results ← create_test_result 1 test.iterations
      result ← element_at results 0
      passed_results ← create_test_result 1 test.iterations
      passed_result ← element_at passed_results 0
      clk ← get_min_exec_time table
      let iters = pos_part test.iterations
      e ←
          retry (λ num n r. run_timer_test iters num.1 n r >>= λ m. ok (some m)) next_num
            (judge clk test.threshold mode params) retry_fuel (0, nanosleep_time) 0 n
            (record result { desc = codes "Timer configuration test" })
      elim e [ none ↦ fault aborted | some e ↦ least_timer clk params iters passed_result e ]

    unfoldable pub timer_config :
        ResultTable F
        → BenchmarkTest F
        → InputParams F
        → ℕ
        → Run (ℤ × ResultTable F × InputParams F)
    timer_config table test params n = do
      let changed = timer_params mode acceptable_pct acceptable_range params
      r ← measure_timer table test changed n
      table ← add_result_to_result_table2 table r systimer_config test
      ok (success, table, restore_params mode (acceptable_pct) (acceptable_range) params changed)
