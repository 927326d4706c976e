-- ===== src/Table/Examples.antt =====
-- Entries of a small table, over whole numbers in place of a `double`.
use rtmb.Base.{◌≡◌, refl, true, false, [], ◌∷◌, none, some, arith, ok, Returns}
use rtmb.Base.Int.{ℤ, pos, ◌*ℤ◌}
use rtmb.Double.Whole.{whole}
use rtmb.Params.{BenchmarkTest}
use rtmb.Result.{TestResults}
use rtmb.Result.Sample.{holding}
use rtmb.Score.{FinalBmTestResult}
use rtmb.Table.{Slot, ResultTable, add_result_to_result_table2, compute_system_scores}
use rtmb.Table.Entries.{IsEntered, IsOverall, add_result_to_result_table2-IsEntered}
use rtmb.Table.System.{IsComplete, system_scores, compute_system_scores-system_scores}

abbrev empty_slot : Slot ℤ
empty_slot = record { fbmt = none; bm_test = none; valid = false }

abbrev table : ResultTable ℤ
table = empty_slot ∷ empty_slot ∷ empty_slot ∷ []

abbrev clock_test : BenchmarkTest ℤ
clock_test = record {
  name = [];
  desc = [];
  iterations = pos 2;
  config_test = pos 1;
  threshold = pos 1;
  reference_score = pos 5;
}

abbrev full : TestResults ℤ
full = holding (pos 30 ∷ pos 10 ∷ []) 2 2 (pos 10) (pos 30)

abbrev clocked : TestResults ℤ
clocked = record full { mediantime = pos 10 }

add_result_to_result_table2-IsEntered_example :
    Returns
      (IsEntered
        (IsOverall full (pos 30 ∷ pos 10 ∷ []) (pos 5) (pos 1000000 *ℤ pos 1))
        table
        2
        clock_test)
      (add_result_to_result_table2 table full 2 clock_test)
add_result_to_result_table2-IsEntered_example =
    add_result_to_result_table2-IsEntered table full 2 clock_test (pos 30) (pos 10 ∷ []) []
      (record { array = refl; used = refl }) refl (omega arith)

abbrev ended : FinalBmTestResult ℤ
ended = record {
  score = [];
  throughput_test_score = pos 2;
  consistency_test_score = pos 3;
  test_score = pos 1;
  test_pass = true;
}

abbrev ran : ResultTable ℤ
ran = record { fbmt = some ended; bm_test = some clock_test; valid = true } ∷ table

ran-IsComplete : IsComplete ran
ran-IsComplete = (
  λ _. (ended, refl),
  (
    λ e. absurd (ground (arith, e)),
    (λ e. absurd (ground (arith, e)), (λ e. absurd (ground (arith, e)), tt)),
  ),
)

compute_system_scores-system_scores_example : compute_system_scores ran ≡ ok (system_scores ran)
compute_system_scores-system_scores_example = compute_system_scores-system_scores ran ran-IsComplete
