-- ===== src/Program.antt =====
-- `main` of rtmb_c/src/harness/RTMB.c: the program from its arguments to its report. What the calls of
-- the system answer, the files and the shared objects of the tests are arguments; printing and the
-- freeing of memory have no part in it, and the files of the report are in Report. `RTMB_panic` ends
-- the program with the given code.
pub mod Phases
mod Examples
use rtmb.Parser.{parse_input_file}
use rtmb.Launch.{launch_tests}
use rtmb.Command.{Outcome, parse_cmd_line, setup_default_options}
use rtmb.CString.{codes}
use rtmb.Home.{Home, home, unset, build_home_dir, slash}
use rtmb.Config.{eqb_ℤ}
use rtmb.Table.{compute_system_scores, max_tests, ResultTable, Slot}
use rtmb.Double.{Double}
use rtmb.Params.{BenchmarkTest, RtVals, InputParams, CmdLineArgs, Bytes, soft_rt}
use rtmb.Base.Int.{success, error, ℤ, pos}
use rtmb.Base.{
  buffer_overflow, ◌++◌, bad_pointer, length, fault, ltb, replicate, if◌then◌else◌, ok, List, ◌==◌,
  Run, Option, ℕ, Bool, none, ◌>>=◌, false, true, [], ◌∷◌,
}

-- The calls of the system that `main` makes before it reads its arguments.
pub record Surroundings : Type 0 where
  pub pages_locked : Bool
  pub stat : Bytes → Option Bool
  pub realpath : Bytes → Option Bytes
  pub getcwd : Option Bytes
  pub getenv : Option Bytes
  pub fopen : Bytes → Option Bytes

-- What is reported: the directory of the files, the table, and the scores of the system.
pub record Report (F : Type 0) : Type 0 where
  pub dir_name : Bytes
  pub res_table : ResultTable F
  pub consistency : F
  pub throughput : F
  pub score : F

-- The program ends by a call of `exit` or `return`, after its report if it makes one; without one,
-- the table that the tests have entered their results in is kept here.
pub data Exit (F : Type 0) : Type 0 where
  exited_with : ℤ → ResultTable F → Exit F
  reported : Report F → Exit F

-- Whether the last byte is a slash.
abbrev pub ends_in_slash : Bytes → Bool
ends_in_slash [] = false
ends_in_slash (x ∷ []) = x == slash
ends_in_slash (x ∷ y ∷ s) = ends_in_slash (y ∷ s)

-- The directory with a slash behind it; the buffer has MAXPATHLEN + 1 bytes.
unfoldable pub report_dir : ℕ → Bytes → Run Bytes
report_dir max_path_len [] = ok (codes "./")
report_dir max_path_len (x ∷ s) =
    if ends_in_slash (x ∷ s)
    then ok (x ∷ s)
    else if ltb (length (x ∷ s)) max_path_len
    then ok (x ∷ s ++ codes "/")
    else fault buffer_overflow

-- What `calloc` gives for the table, the parameters and the options; the first of the modes is 0.
abbrev pub empty_slot : {F : Type 0} → Slot F
empty_slot = record { fbmt = none; bm_test = none; valid = false }

-- The table before any test has run.
abbrev pub empty_table : {F : Type 0} → ResultTable F
empty_table = replicate max_tests empty_slot

-- `RTMB_panic` where a phase has failed.
abbrev pub or_panic : {F : Type 0} → ℤ → Run (Exit F) → Run (Exit F)
or_panic rc next = elim (eqb_ℤ rc error) [
  | true ↦ ok (exited_with error empty_table)
  | false ↦ next
]

abbrev pub no_args : CmdLineArgs
no_args = record {
  verbose = false;
  verbose_lvl = 0;
  quick = false;
  rt_mode = soft_rt;
  file_name = [];
  dir_name = [];
  test_list = [];
}

module _ {F : Type 0} ⦃d : Double F⦄ where
  abbrev pub no_vals : RtVals F
  no_vals = record {
    acceptable_percentage = d.of_int (pos 0);
    range_percentage = d.of_int (pos 0);
    multiplier = d.of_int (pos 0);
  }

  abbrev pub no_params : InputParams F
  no_params = record { tests = []; hrt = no_vals; srt = no_vals; grt = no_vals }

module _ {F : Type 0} ⦃d : Double F⦄ (max_path_len : ℕ) (around : Surroundings) (atof : Bytes → F)
    (open_test : Bytes → Option (BenchmarkTest F → ResultTable F → Bool × ResultTable F)) where
  -- From the launch of the tests on.
  unfoldable pub run_and_report : CmdLineArgs → InputParams F → Run (Exit F)
  run_and_report args params = do
    let launched = launch_tests open_test params args params.tests empty_table
    dir_name ← report_dir max_path_len args.dir_name
    scores ← compute_system_scores launched.2
    ok (
        reported (record {
          dir_name = dir_name;
          res_table = launched.2;
          consistency = scores.0;
          throughput = scores.1;
          score = scores.2;
        }))

  -- From the input file on.
  unfoldable pub read_and_run : CmdLineArgs → Run (Exit F)
  read_and_run args = do
    parsed ← parse_input_file atof (around.fopen args.file_name) no_params
    elim (parsed.0) [
      | false ↦ ok (exited_with error empty_table)
      | true ↦ run_and_report args parsed.1
    ]

  -- What `parse_cmd_line` has decided.
  unfoldable pub with_options : Outcome → Run (Exit F)
  with_options Outcome.exited = ok (exited_with success empty_table)
  with_options (Outcome.returned rc args) = or_panic rc (read_and_run args)

  -- From the options on.
  unfoldable pub configure_and_run : List Bytes → Run (Exit F)
  configure_and_run argv = setup_default_options max_path_len around.getcwd no_args >>= λ defaults.
      or_panic defaults.0 (parse_cmd_line max_path_len argv defaults.1 >>= λ o. with_options o)

  -- `home_dir` is printed and copied, which reads it.
  unfoldable pub with_home : List Bytes → Home → Run (Exit F)
  with_home argv unset = fault bad_pointer
  with_home argv (home dir) = configure_and_run argv

  unfoldable pub main : Bytes → List Bytes → Run (Exit F)
  main file_name argv = elim (around.pages_locked) [
    | false ↦ ok (exited_with error empty_table)
    | true ↦
        build_home_dir max_path_len around.stat around.realpath around.getcwd around.getenv
          file_name
        >>= λ h. with_home argv h
  ]
