-- ===== src/Command.antt =====
-- rtmb_c/src/harness/RTMB_rd_cmd_line.c: the options of the program. An argument vector is the list
-- of its strings behind the program's name, and stands for the `NULL` behind it where it ends.
-- MAXPATHLEN of <sys/param.h>, the size of the buffers for paths less one, is a parameter.
pub mod Names
pub mod Options
mod Examples
use rtmb.Base.{
  ℕ, zero, suc, ◌+◌, ◌||◌, Bool, true, false, List, [], ◌∷◌, ◌++◌, Option, none, some, leb, length,
  if◌then◌else◌, Fault, buffer_overflow, Run, ok, fault, out_of_fuel, ◌>>=◌, ◌>>◌, require,
}
use rtmb.Base.Int.{ℤ, success, error}
use rtmb.CString.{codes, equal, starts_with, strtok}
use rtmb.Params.{Bytes, RtMode, soft_rt, hard_rt, guaranteed_rt, CmdLineArgs}

-- The branch of the loop of `parse_cmd_line` that an argument takes.
pub data OptionKind : Type 0 where
  help verbose_simple verbose_detailed silent file report quick : OptionKind
  compliant test list_tests hard soft guaranteed unknown : OptionKind

is_option : Bytes → Bytes → Bytes → Bool
is_option long short arg = equal arg long || equal arg short

-- The branches from `--quick` on.
classify_mode : Bytes → OptionKind
unfolding is_option
classify_mode arg =
    if is_option (codes "--quick") (codes "-q") arg
    then quick
    else if is_option (codes "--compliant") (codes "-c") arg
    then compliant
    else if is_option (codes "--test") (codes "-t") arg
    then test
    else if is_option (codes "--test?") (codes "-t?") arg
    then list_tests
    else if equal arg (codes "--hard-rt")
    then hard
    else if equal arg (codes "--soft-rt")
    then soft
    else if equal arg (codes "--guaranteed-rt")
    then guaranteed
    else unknown

pub classify_option : Bytes → OptionKind
unfolding is_option classify_mode
classify_option arg =
    if is_option (codes "--help") (codes "-h") arg || equal arg (codes "-?")
    then help
    else if starts_with (codes "--verbose:simple") arg || starts_with (codes "-v:simple") arg
    then verbose_simple
    else if starts_with (codes "--verbose:detailed") arg || starts_with (codes "-v:detailed") arg
    then verbose_detailed
    else if is_option (codes "--silent") (codes "-s") arg
    then silent
    else if is_option (codes "--file") (codes "-f") arg
    then file
    else if is_option (codes "--report") (codes "-r") arg
    then report
    else classify_mode arg

pub insert_in_test_list : CmdLineArgs → Bytes → CmdLineArgs
insert_in_test_list args name = record args { test_list = name ∷ args.test_list }

-- The loop over the further tokens.
insert_tokens : ℕ → CmdLineArgs → Bytes → Run CmdLineArgs
unfolding insert_in_test_list
insert_tokens zero args saved = out_of_fuel
insert_tokens (suc fuel) args saved = elim (strtok b':' saved) [
  | none ↦ ok args
  | some (token, more) ↦ insert_tokens fuel (insert_in_test_list args token) more
]

-- Without a token the argument itself is the name. A token takes at least one byte.
pub setup_testcase_names : CmdLineArgs → Bytes → Run CmdLineArgs
unfolding insert_in_test_list insert_tokens
setup_testcase_names args testnames = elim (strtok b':' testnames) [
  | none ↦ ok (insert_in_test_list args testnames)
  | some (token, more) ↦ insert_tokens (length testnames + 1) (insert_in_test_list args token) more
]

-- How a round of the loop goes on. The flag of `next_option` says whether the option was unknown.
pub data Step : Type 0 where
  next_option skip_argument : Bool → CmdLineArgs → Step
  exit_program : Step
  return_error : CmdLineArgs → Step

-- How `parse_cmd_line` ends: by `exit(0)`, or with its result and the structure it has filled.
pub data Outcome : Type 0 where
  exited : Outcome
  returned : ℤ → CmdLineArgs → Outcome

module _ (max_path_len : ℕ) where
  -- `strcpy` into a buffer of MAXPATHLEN + 1 bytes.
  copy_path : Bytes → Run Bytes
  copy_path path = if leb (length path) max_path_len then ok path else fault buffer_overflow

  -- An option with an argument; `none` is the `NULL` behind the last one.
  take_argument : (Bytes → Run CmdLineArgs) → Option Bytes → CmdLineArgs → Run Step
  take_argument set none args = ok (return_error args)
  take_argument set (some v) args = do args ← set v; ok (skip_argument false args)

  pub option_step : OptionKind → Option Bytes → CmdLineArgs → Run Step
  unfolding copy_path take_argument
  option_step help next args = ok exit_program
  option_step verbose_simple next args =
      ok (next_option false (record args { verbose = true; verbose_lvl = 1 }))
  option_step verbose_detailed next args =
      ok (next_option false (record args { verbose = true; verbose_lvl = 2 }))
  option_step silent next args = ok (next_option false (record args { verbose = false }))
  option_step file next args =
      take_argument (λ v. do path ← copy_path v; ok (record args { file_name = path })) next args
  option_step report next args =
      take_argument (λ v. do path ← copy_path v; ok (record args { dir_name = path })) next args
  option_step quick next args = ok (next_option false (record args { quick = true }))
  option_step compliant next args = ok (next_option false (record args { quick = false }))
  option_step test next args = take_argument (setup_testcase_names args) next args
  option_step list_tests next args = ok exit_program
  option_step hard next args = ok (next_option false (record args { rt_mode = hard_rt }))
  option_step soft next args = ok (next_option false (record args { rt_mode = soft_rt }))
  option_step guaranteed next args =
      ok (next_option false (record args { rt_mode = guaranteed_rt }))
  option_step unknown next args = ok (next_option true args)

  -- The loop, and what follows it. The flag is `bad_option`.
  pub parse_options : List Bytes → Bool → CmdLineArgs → Run Outcome
  unfolding option_step
  parse_options [] bad args = ok (returned (if bad then error else success) args)
  parse_options (arg ∷ []) bad args = do
    step ← option_step (classify_option arg) none args
    elim step [
      | next_option is_bad args' ↦ parse_options [] (is_bad || bad) args'
      | skip_argument is_bad args' ↦ parse_options [] (is_bad || bad) args'
      | exit_program ↦ ok exited
      | return_error args' ↦ ok (returned error args')
    ]
  parse_options (arg ∷ next ∷ rest) bad args = do
    step ← option_step (classify_option arg) (some next) args
    elim step [
      | next_option is_bad args' ↦ parse_options (next ∷ rest) (is_bad || bad) args'
      | skip_argument is_bad args' ↦ parse_options rest (is_bad || bad) args'
      | exit_program ↦ ok exited
      | return_error args' ↦ ok (returned error args')
    ]

  pub parse_cmd_line : List Bytes → CmdLineArgs → Run Outcome
  unfolding parse_options
  parse_cmd_line argv args = parse_options argv false args

  -- `getcwd` may fail; its result fits the buffer. "/config/input.txt" is 17 bytes longer.
  unfoldable pub setup_default_options :
      (getcwd : Option Bytes) → CmdLineArgs → Run (ℤ × CmdLineArgs)
  unfolding copy_path
  setup_default_options cwd args = elim cwd [
    | none ↦ ok (error, record args { verbose = false; quick = false; rt_mode = soft_rt })
    | some dir ↦ do
      path ← copy_path (dir ++ codes "/config/input.txt")
      ok (
        success,
        record args {
          verbose = false;
          quick = false;
          rt_mode = soft_rt;
          dir_name = dir;
          file_name = path;
        },
      )
  ]
