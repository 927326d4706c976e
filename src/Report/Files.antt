-- ===== src/Report/Files.antt =====
-- Which files a report has when nothing goes wrong, and which streams stay open.
use mathlib.Core.List.{append-nil, append_assoc}
use rtmb.CString.{codes}
use rtmb.Table.{Slot, ResultTable}
use rtmb.Report.{dump_tests, test_lines, system_lines, Written, Line, dump_test}
use rtmb.Params.{BenchmarkTest}
use rtmb.Result.{Bytes}
use rtmb.Score.{FinalBmTestResult, TestScore}
use rtmb.Double.{Double}
use rtmb.Base.{
  arith, ap, ◌∙◌, Run, suc, lt→ltb, ◌+◌, ok, ◌<◌, length, ◌≡◌, ◌++◌, List, ℕ, Bool, true, some,
  none, refl, [], ◌∷◌,
}

module _ {F : Type 0} ⦃d : Double F⦄ (name_of : TestScore F → Bytes) (mkdir fopen : Bytes → Bool)
    (verbose_level : ℕ) (scores : F × F × F) (output_dir : Bytes) where
  abbrev directory : BenchmarkTest F → Bytes
  directory t = output_dir ++ codes "/" ++ t.name

  abbrev pub report_name : BenchmarkTest F → Bytes
  report_name t = directory t ++ codes "/report.txt"

  abbrev pub system_name : Bytes
  system_name = output_dir ++ codes "/system_report.txt"

  -- The tests of the table, in its order, with their lines: the names fit their buffer, and every
  -- entered test has a result.
  pub data Reportable : ResultTable F → List (BenchmarkTest F × List (Line F)) → Type 0 where
    no_more : Reportable [] []
    not_run :
        {s : Slot F} {table : ResultTable F} {tests : List (BenchmarkTest F × List (Line F))}
        → s.bm_test ≡ none
        → Reportable table tests
        → Reportable (s ∷ table) tests
    run :
        {s : Slot F} {table : ResultTable F} {tests : List (BenchmarkTest F × List (Line F))}
        (t : BenchmarkTest F) (f : FinalBmTestResult F) (lines : List (Line F))
        → s.bm_test ≡ some t
        → s.fbmt ≡ some f
        → length (directory t) < 1024
        → length (report_name t) < 1024
        → test_lines name_of verbose_level t f ≡ ok lines
        → Reportable table tests
        → Reportable (s ∷ table) ((t, lines) ∷ tests)

  -- For each test its report, and then the report of the system.
  abbrev pub files_of : List (BenchmarkTest F × List (Line F)) → List (Bytes × List (Line F))
  files_of [] = []
  files_of ((t, lines) ∷ tests) =
      (report_name t, lines) ∷ (system_name, system_lines name_of scores) ∷ files_of tests

  dump_test-written :
      (t : BenchmarkTest F) (f : FinalBmTestResult F) (lines : List (Line F)) (w : Written name_of)
      → ((name : Bytes) → mkdir name ≡ true)
      → ((name : Bytes) → fopen name ≡ true)
      → length system_name < 1024
      → length (directory t) < 1024
      → length (report_name t) < 1024
      → test_lines name_of verbose_level t f ≡ ok lines
      → dump_test name_of mkdir fopen verbose_level scores output_dir t (some f) w
        ≡ ok (
          true,
          record {
            files =
                (w.files ++ (report_name t, lines) ∷ [])
                ++ (system_name, system_lines name_of scores) ∷ [];
            left_open = w.left_open + 1;
          },
        )
  unfolding dump_test
  dump_test-written t f lines w made opened system_fits fits report_fits e =
      rw
        (
          lt→ltb (length (directory t)) 1024 fits,
          made (directory t),
          lt→ltb (length (report_name t)) 1024 report_fits,
          opened (report_name t),
          e,
          lt→ltb (length system_name) 1024 system_fits,
          opened system_name,
        )
        refl

  skip_slot :
      (s : Slot F) (table : ResultTable F) (w : Written name_of)
      → s.bm_test ≡ none
      → dump_tests name_of mkdir fopen verbose_level scores output_dir (s ∷ table) w
        ≡ dump_tests name_of mkdir fopen verbose_level scores output_dir table w
  unfolding dump_tests
  skip_slot s table w e = rw e refl

  take_slot :
      (s : Slot F) (t : BenchmarkTest F) (f : FinalBmTestResult F) (table : ResultTable F)
      (w w' : Written name_of)
      → s.bm_test ≡ some t
      → s.fbmt ≡ some f
      → dump_test name_of mkdir fopen verbose_level scores output_dir t (some f) w ≡ ok (true, w')
      → dump_tests name_of mkdir fopen verbose_level scores output_dir (s ∷ table) w
        ≡ dump_tests name_of mkdir fopen verbose_level scores output_dir table w'
  unfolding dump_tests
  take_slot s t f table w w' e e' h = rw (e, e', h) refl

  nothing_written :
      (files : List (Bytes × List (Line F))) (n : ℕ)
      → ◌≡◌ {A = Run (Written name_of)}
          (ok (record { files = files; left_open = n }))
          (ok (record { files = files ++ []; left_open = n + 0 }))
  nothing_written files n =
      rw (append-nil files) (ap (λ m. ok (record { files = files; left_open = m })) (omega arith))

  written_after :
      (files : List (Bytes × List (Line F))) (one two : Bytes × List (Line F))
      (later : List (Bytes × List (Line F))) (n k : ℕ)
      → ◌≡◌ {A = Run (Written name_of)}
          (ok
            (record { files = ((files ++ one ∷ []) ++ two ∷ []) ++ later; left_open = n + 1 + k }))
          (ok (record { files = files ++ one ∷ two ∷ later; left_open = n + suc k }))
  written_after files one two later n k =
      rw
        (
          append_assoc (files ++ one ∷ []) (two ∷ []) later,
          append_assoc files (one ∷ []) (two ∷ later),
        )
        (ap (λ m. ok (record { files = files ++ one ∷ two ∷ later; left_open = m })) (omega arith))

  -- Every directory can be made and every file opened, the names fit their buffers, and every test
  -- that has an entry in the table has a result whose lines can be printed. Then the report has,
  -- in the order of the table, a file for each entered test with its lines, each followed by the
  -- same report of the system, written again under the same name; and one stream for each entered
  -- test is never closed.
  pub dump_tests-files :
      {table : ResultTable F} {tests : List (BenchmarkTest F × List (Line F))} (w : Written name_of)
      → ((name : Bytes) → mkdir name ≡ true)
      → ((name : Bytes) → fopen name ≡ true)
      → length system_name < 1024
      → Reportable table tests
      → dump_tests name_of mkdir fopen verbose_level scores output_dir table w
        ≡ ok (record { files = w.files ++ files_of tests; left_open = w.left_open + length tests })
  unfolding dump_tests
  dump_tests-files w made opened fits no_more = nothing_written w.files w.left_open
  dump_tests-files w made opened fits (not_run {s} {table} e more) =
      skip_slot s table w e ∙ dump_tests-files w made opened fits more
  dump_tests-files w made opened fits (run {s} {table} {tests} t f lines e e' short short' h more) =
      take_slot s t f table w _ e e' (dump_test-written t f lines w made opened fits short short' h)
      ∙ dump_tests-files _ made opened fits more
      ∙ written_after w.files (report_name t, lines) (system_name, system_lines name_of scores)
          (files_of tests) w.left_open (length tests)
