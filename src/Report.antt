-- ===== src/Report.antt =====
-- rtmb_c/src/reporter/reporter.c: the files of the report as lists of lines. A line is its text and
-- the value that is printed behind it. What `mkdir` and `fopen` answer for a name is an argument, as
-- is the name that the time of the day gives. A vector is the list of its elements, and `name_of` gives
-- the names of scores. Empty lines and underlines are left out.
pub mod Files
mod Examples
use rtmb.Table.{ResultTable}
use rtmb.Params.{BenchmarkTest}
use rtmb.CString.{codes}
use rtmb.Score.{FinalBmTestResult, TestScore}
use rtmb.Result.{TestResults, Bytes}
use rtmb.Double.{Double}
use rtmb.Base.Int.{◌-ℤ◌, ℤ, pos}
use rtmb.Base.{
  bad_pointer, false, true, ◌+◌, buffer_overflow, out_of_bounds, length, ◌++◌, ltb, leb, fault, ok,
  if◌then◌else◌, Option, Run, List, Bool, ℕ, ◌>>=◌, some, none, suc, [], ◌∷◌, zero,
}

pub data Line (F : Type 0) : Type 0 where
  text : Bytes → Line F
  whole : Bytes → ℤ → Line F
  real : Bytes → F → Line F

-- `sprintf` and `strcat` into a buffer of so many bytes.
abbrev pub print_into : ℕ → Bytes → Run Bytes
print_into size s = if ltb (length s) size then ok s else fault buffer_overflow

-- `stamp` is the part "c_report_..." of the name, of 24 bytes; with the terminating NUL the format
-- takes 25.
unfoldable pub get_output_dir : (Bytes → Bool) → Bytes → Bytes → Option Bytes
get_output_dir mkdir stamp dir =
    if ltb 1023 (length dir + 25 + 1)
    then none
    else if mkdir (dir ++ codes "/" ++ stamp)
    then some (dir ++ codes "/" ++ stamp)
    else none

module _ {F : Type 0} ⦃d : Double F⦄ where
  -- `MICROSEC`
  abbrev pub micros : F → F
  micros x = d.div x (d.of_int (pos 1000))

  -- The loop over the measured times.
  unfoldable pub time_lines : ℕ → ℕ → List ℤ → Run (List (Line F))
  time_lines zero k values = ok []
  time_lines (suc n) k [] = fault out_of_bounds
  time_lines (suc n) k (v ∷ values) = do
    lines ← time_lines n (k + 1) values
    ok (whole (codes "Execution time") (pos k) ∷ real (codes "") (micros (d.of_int v)) ∷ lines)

  unfoldable pub print_result : ℕ → TestResults F → Run (List (Line F))
  print_result verbose_level r = do
    times ← if leb 1 verbose_level then time_lines r.num_entries 0 r.values else ok []
    ok (
        whole (codes "Total number of iterations of test run:") (pos r.iterations)
        ∷ real (codes "Measured Median for this test run:") (micros (d.of_int r.mediantime))
        ∷ real (codes "Measured maximum time for this test run:") (micros (d.of_int r.maxtime))
        ∷ real (codes "Measured minimum time for this test run:") (micros (d.of_int r.mintime))
        ∷ real (codes "Measured mean for this test run:") (micros (d.of_int r.meantime))
        ∷ real (codes "Measured standard deviation for this test run:") (micros r.stdtime)
        ∷ whole (codes "Total number of conforming iterations:")
            (pos r.iterations -ℤ r.non_conforming_iterations)
        ∷ whole (codes "Total number of outlying iterations:") r.non_conforming_iterations
        ∷ times)

  -- The inner loop of `dump_score`, over the results of a score; `several` is `result_length > 1`.
  unfoldable pub dump_results : ℕ → Bool → List (TestResults F) → Run (List (Line F))
  dump_results verbose_level several [] = ok []
  dump_results verbose_level several (r ∷ rs) = do
    lines ← print_result verbose_level r
    later ← dump_results verbose_level several rs
    ok ((if several then text r.name ∷ lines else lines) ++ later)

  module _ (name_of : TestScore F → Bytes) where
    -- The outer loop; `several` is `score_len > 1`.
    unfoldable pub dump_scores : ℕ → Bool → List (TestScore F) → Run (List (Line F))
    dump_scores verbose_level several [] = ok []
    dump_scores verbose_level several (s ∷ scores) = do
      lines ← dump_results verbose_level (ltb 1 (length s.result)) s.result
      later ← dump_scores verbose_level several scores
      ok (
          (if several then text (name_of s) ∷ [] else [])
          ++ (real (codes "Maximum throughput score") s.max_throughput
              ∷ real (codes "Minimum throughput score") s.min_throughput
              ∷ real (codes "Mean throughput score") s.mean_throughput
              ∷ real (codes "Weighted throughput score") s.wgt_throughput
              ∷ [])
          ++ (if several
              then real (codes "Score for determinism for this subtest:") s.consistency_score ∷ []
              else [])
          ++ lines
          ++ later)

    unfoldable pub dump_score : ℕ → List (TestScore F) → Run (List (Line F))
    dump_score verbose_level scores = dump_scores verbose_level (ltb 1 (length scores)) scores

    -- The lines of the report of a test, and of that of the system.
    abbrev pub test_lines : ℕ → BenchmarkTest F → FinalBmTestResult F → Run (List (Line F))
    test_lines verbose_level t f = do
      lines ← dump_score verbose_level f.score
      ok (
          text (codes "Report for test: " ++ t.name)
          ∷ real (codes "Score for determinism:") f.consistency_test_score
          ∷ real (codes "Score for throughput:") f.throughput_test_score
          ∷ lines)

    abbrev pub system_lines : F × F × F → List (Line F)
    system_lines scores =
        real (codes "Final throughput score for the system :") scores.1
        ∷ real (codes "Final consistency score for the system:") scores.0
        ∷ real (codes "Final score for the system :") scores.2
        ∷ []

    -- The files that are written, in the order in which they are opened, and how many streams are
    -- never closed.
    pub record Written : Type 0 where
      pub files : List (Bytes × List (Line F))
      pub left_open : ℕ

    module _ (mkdir fopen : Bytes → Bool) (verbose_level : ℕ) (scores : F × F × F)
        (output_dir : Bytes) where
      -- One test; nothing where the report is given up.
      unfoldable pub dump_test :
          BenchmarkTest F → Option (FinalBmTestResult F) → Written → Run (Bool × Written)
      dump_test t fbmt w = do
        fullpath ← print_into 1024 (output_dir ++ codes "/" ++ t.name)
        elim (mkdir fullpath) [
          | false ↦ ok (false, w)
          | true ↦ (do
            test_report ← print_into 1024 (fullpath ++ codes "/report.txt")
            elim (fopen test_report) [
              | false ↦ ok (false, w)
              | true ↦ elim fbmt [
                | none ↦ fault bad_pointer
                | some f ↦ (do
                  lines ← test_lines verbose_level t f
                  system_report ← print_into 1024 (output_dir ++ codes "/system_report.txt")
                  let w = record w { files = w.files ++ (test_report, lines) ∷ [] }
                  elim (fopen system_report) [
                    | false ↦ ok (false, w)
                    | true ↦ ok (
                      true,
                      record {
                        files = w.files ++ (system_report, system_lines scores) ∷ [];
                        left_open = w.left_open + 1;
                      },
                    )
                  ])
              ]
            ])
        ]

      -- The loop over the table.
      unfoldable pub dump_tests : ResultTable F → Written → Run Written
      dump_tests [] w = ok w
      dump_tests (s ∷ table) w = elim (s.bm_test) [
        | none ↦ dump_tests table w
        | some t ↦ (do
          dumped ← dump_test t s.fbmt w
          elim (dumped.0) [ false ↦ ok dumped.1 | true ↦ dump_tests table dumped.1 ])
      ]

    unfoldable pub dump_result_table_entry :
        (mkdir fopen : Bytes → Bool) → ℕ → F × F × F → Bytes → Bytes → ResultTable F → Run Written
    dump_result_table_entry mkdir fopen verbose_level scores stamp dir table =
        elim (get_output_dir mkdir stamp dir) [
          | none ↦ ok (record { files = []; left_open = 0 })
          | some output_dir ↦
              dump_tests mkdir fopen verbose_level scores output_dir table
                (record { files = []; left_open = 0 })
        ]
