-- ===== src/Table.antt =====
-- The result table of rtmb_c/src/testcase/util/result_mgmt/result_mgmt.c: how a test enters its
-- results, what the later tests read, and the scores of the system. The table is an array of
-- MAX_TESTS slots; memory is never exhausted.
pub mod Entries
pub mod System
mod Examples
use rtmb.Base.{
  ℕ, zero, suc, ◌+◌, Bool, true, false, List, [], ◌∷◌, Option, none, some, get_elem?, set, length,
  ltb, count, if◌then◌else◌, Fault, bad_pointer, out_of_bounds, assert_failed, aborted, Run, ok,
  fault, ◌>>=◌,
}
use rtmb.Base.Int.{ℤ, pos}
use rtmb.Double.{Double}
use rtmb.Long.{mul_long}
use rtmb.Params.{BenchmarkTest}
use rtmb.Result.{TestResults}
use rtmb.Score.{
  TestScore, FinalBmTestResult, number, element_at, generate_combined_score,
  create_final_bm_test_result1,
}

-- `result_table_t`, but its mutexes and the fields that nothing uses.
pub record Slot (F : Type 0) : Type 0 where
  pub fbmt : Option (FinalBmTestResult F)
  pub bm_test : Option (BenchmarkTest F)
  pub valid : Bool

abbrev pub ResultTable : Type 0 → Type 0
ResultTable F = List (Slot F)

-- `SYSCLOCK_CONFIG`, `SYSTIMER_CONFIG` and `MAX_TESTS`
abbrev pub sysclock_config : ℕ
sysclock_config = 0

abbrev pub systimer_config : ℕ
systimer_config = 1

abbrev pub max_tests : ℕ
max_tests = 18

module _ {F : Type 0} where
  -- `res_table[bucket]`
  abbrev pub slot_at : ResultTable F → ℕ → Run (Slot F)
  slot_at table bucket = elim (get_elem? table bucket) [
    | none ↦ fault out_of_bounds
    | some s ↦ ok s
  ]

  -- The three assignments at the end of every `add_result_to_result_table`.
  unfoldable pub enter :
      ResultTable F → ℕ → FinalBmTestResult F → BenchmarkTest F → Run (ResultTable F)
  enter table bucket f test =
      if ltb bucket (length table)
      then ok (set table bucket (record { fbmt = some f; bm_test = some test; valid = true }))
      else fault out_of_bounds

  -- What a configuration test has entered: the first result of the first score.
  unfoldable pub config_result : ResultTable F → ℕ → Run (TestResults F)
  config_result table bucket = do
    slot ← slot_at table bucket
    f ← elim slot.fbmt [ none ↦ fault bad_pointer | some f ↦ ok f ]
    score ← element_at f.score 0
    element_at score.result 0

  unfoldable pub get_ideal_sleep_time : ResultTable F → Run ℤ
  get_ideal_sleep_time table = do r ← config_result table systimer_config; ok r.opern_amount

  -- The least, the largest and the ideal time, for three pointers that are not `NULL`.
  unfoldable pub get_ideal_work_time : ResultTable F → Run (ℤ × ℤ × ℤ)
  get_ideal_work_time table = do
    r ← config_result table sysclock_config
    median ← mul_long (pos 20) r.mediantime
    ok (r.mintime, r.maxtime, median)

  unfoldable pub get_clock_accuracy : ResultTable F → Run ℤ
  get_clock_accuracy table = do r ← config_result table sysclock_config; ok r.meantime

  unfoldable pub get_ideal_work_quantum : ResultTable F → Run ℤ
  get_ideal_work_quantum table = do r ← config_result table sysclock_config; ok r.opern_amount

module _ {F : Type 0} ⦃d : Double F⦄ where
  -- `get_min_exec_time`, whose asserts stand in front of the reads through `NULL`.
  unfoldable pub get_min_exec_time : ResultTable F → Run F
  get_min_exec_time table = do
    slot ← slot_at table sysclock_config
    f ← elim slot.fbmt [ none ↦ fault bad_pointer | some f ↦ ok f ]
    score ← elim (get_elem? f.score 0) [ none ↦ fault assert_failed | some s ↦ ok s ]
    r ← elim (get_elem? score.result 0) [ none ↦ fault assert_failed | some r ↦ ok r ]
    t ← mul_long (pos 20) r.mediantime
    ok (d.of_int t)

  unfoldable pub add_result_to_result_table1 :
      ResultTable F → TestResults F → ℕ → BenchmarkTest F → Run (ResultTable F)
  add_result_to_result_table1 table r bucket test =
      enter table bucket
        (record {
          score =
              record {
                result = r ∷ [];
                consistency_score = number 1;
                min_throughput = number 1;
                max_throughput = number 1;
                mean_throughput = number 1;
                wgt_throughput = number 1;
                throughput_score = number 1;
              }
              ∷ [];
          throughput_test_score = d.neg (number 1);
          consistency_test_score = d.neg (number 1);
          test_score = number 0;
          test_pass = false;
        })
        test

  -- `create_final_bm_test_result1`, and the flag that the caller sets.
  abbrev scored : List (TestScore F) → Bool → FinalBmTestResult F
  scored scores pass = record (create_final_bm_test_result1 scores) { test_pass = pass }

  unfoldable pub add_result_to_result_table2 :
      ResultTable F → TestResults F → ℕ → BenchmarkTest F → Run (ResultTable F)
  add_result_to_result_table2 table r bucket test = do
    scores ← generate_combined_score (r ∷ []) test.reference_score
    enter table bucket (scored scores true) test

  -- The flag stays as `calloc` left it.
  unfoldable pub add_result_to_result_table3 :
      ResultTable F → List (TestResults F) → ℕ → BenchmarkTest F → Run (ResultTable F)
  add_result_to_result_table3 table rs bucket test = do
    scores ← generate_combined_score rs test.reference_score
    enter table bucket (create_final_bm_test_result1 scores) test

  unfoldable pub add_result_to_result_table4 :
      ResultTable F → List (TestScore F) → ℕ → BenchmarkTest F → Bool → Run (ResultTable F)
  add_result_to_result_table4 table scores bucket test pass =
      enter table bucket (scored scores pass) test

  unfoldable pub add_result_to_result_table5 :
      ResultTable F → List (TestScore F) → ℕ → BenchmarkTest F → Bool → Run (ResultTable F)
  add_result_to_result_table5 table scores bucket test pass =
      enter table bucket
        (record {
          score = scores;
          throughput_test_score = number 0;
          consistency_test_score = number 0;
          test_score = number 0;
          test_pass = pass;
        })
        test

  -- The first loop of `compute_system_scores`.
  abbrev pub executed_tests : ResultTable F → ℕ
  executed_tests table = count (λ s. s.valid) table

  -- `if (score > 0) product *= pow(score, root)`
  abbrev pub times_root : F → F → F → F
  times_root root product score =
      if d.lt (number 0) score then d.mul product (d.pow score root) else product

  -- The second loop: the products of consistency and of throughput.
  unfoldable pub system_products : F → ResultTable F → F → F → Run (F × F)
  system_products root [] consistency throughput = ok (consistency, throughput)
  system_products root (s ∷ table) consistency throughput =
      let rest = system_products root table in
      if s.valid
      then elim s.fbmt [
        | none ↦ fault bad_pointer
        | some f ↦
            if f.test_pass
            then rest (times_root root consistency f.consistency_test_score)
                (times_root root throughput f.throughput_test_score)
            else rest consistency throughput
      ]
      else rest consistency throughput

  -- The scores of the system: consistency, throughput and both.
  unfoldable pub compute_system_scores : ResultTable F → Run (F × F × F)
  compute_system_scores table = do
    (consistency, throughput) ←
        system_products (d.div (number 1) (number (executed_tests table))) table (number 1)
          (number 1)
    ok (consistency, throughput, d.pow (d.mul consistency throughput) (d.div (number 1) (number 2)))
