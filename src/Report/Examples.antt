-- ===== src/Report/Examples.antt =====
-- A table with one slot that was not run and one test without scores.
use rtmb.CString.{codes}
use rtmb.Table.{ResultTable}
use rtmb.Score.{TestScore, FinalBmTestResult}
use rtmb.Result.{Bytes}
use rtmb.Report.{system_lines, real, text, dump_scores, Line, dump_tests, dump_score}
use rtmb.Params.{BenchmarkTest}
use rtmb.Base.Int.{ℤ, pos}
use rtmb.Double.Whole.{whole}
use rtmb.Report.Files.{no_more, run, not_run, Reportable, dump_tests-files}
use rtmb.Base.{arith, ok, ◌≡◌, Bool, List, false, true, some, none, refl, [], ◌∷◌}

abbrev locks : BenchmarkTest ℤ
locks = record {
  name = codes "locks";
  desc = [];
  iterations = pos 3;
  threshold = pos 1;
  config_test = pos 0;
  reference_score = pos 5;
}

abbrev no_scores : FinalBmTestResult ℤ
no_scores = record {
  score = [];
  throughput_test_score = pos 4;
  consistency_test_score = pos 2;
  test_score = pos 3;
  test_pass = true;
}

abbrev nameless : TestScore ℤ → Bytes
nameless s = []

abbrev two_slots : ResultTable ℤ
two_slots =
    record { fbmt = none; bm_test = none; valid = false }
    ∷ record { fbmt = some no_scores; bm_test = some locks; valid = true }
    ∷ []

abbrev always : Bytes → Bool
always name = true

abbrev lock_lines : List (Line ℤ)
lock_lines =
    text (codes "Report for test: locks")
    ∷ real (codes "Score for determinism:") (pos 2)
    ∷ real (codes "Score for throughput:") (pos 4)
    ∷ []

two_slots-Reportable :
    Reportable nameless always always 1
      (pos 1, pos 2, pos 3)
      (codes "out")
      two_slots
      ((locks, lock_lines) ∷ [])
unfolding dump_score dump_scores
two_slots-Reportable =
    not_run refl (run locks no_scores lock_lines refl refl (omega arith) (omega arith) refl no_more)

dump_tests-files_example :
    dump_tests nameless always always 1
      (pos 1, pos 2, pos 3)
      (codes "out")
      two_slots
      (record { files = []; left_open = 0 })
    ≡ ok (record {
      files =
          (codes "out/locks/report.txt", lock_lines)
          ∷ (codes "out/system_report.txt", system_lines nameless (pos 1, pos 2, pos 3))
          ∷ [];
      left_open = 1;
    })
dump_tests-files_example =
    dump_tests-files nameless always always 1 (pos 1, pos 2, pos 3) (codes "out")
      (record { files = []; left_open = 0 }) (λ name. refl) (λ name. refl) (omega arith)
      two_slots-Reportable
