-- ===== src/Command/Options.antt =====
-- `parse_cmd_line`: what a list of options sets, and that an unknown one is not forgotten.
use rtmb.Base.{
  ℕ, ◌≤◌, ◌<◌, leb, buffer_overflow, ◌≡◌, refl, Bool, true, false, ◌∙◌, ◌⊎◌, inl, inr, List, [],
  ◌∷◌, ◌++◌, arith, reverse, length, le→leb, ok, fault,
}
use rtmb.Base.Int.{success, error}
use rtmb.CString.{codes}
use rtmb.Params.{Bytes, RtMode, soft_rt, hard_rt, guaranteed_rt, CmdLineArgs}
use rtmb.Command.{
  file, report, test, unknown, classify_option, copy_path, take_argument, option_step,
  parse_options, parse_cmd_line, returned,
}
use rtmb.Command.Names.{joined, AreNames, setup_testcase_names-joined}

-- What a user may ask for.
pub data Setting : Type 0 where
  level_simple level_detailed quiet one_round all_rounds : Setting
  input_file report_dir : Bytes → Setting
  tests : Bytes → List Bytes → Setting
  mode : RtMode → Setting

mode_option : RtMode → Bytes
mode_option soft_rt = codes "--soft-rt"
mode_option hard_rt = codes "--hard-rt"
mode_option guaranteed_rt = codes "--guaranteed-rt"

-- The arguments for a setting, in front of others.
pub arguments : Setting → List Bytes → List Bytes
unfolding mode_option
arguments level_simple rest = codes "-v:simple" ∷ rest
arguments level_detailed rest = codes "-v:detailed" ∷ rest
arguments quiet rest = codes "-s" ∷ rest
arguments one_round rest = codes "-q" ∷ rest
arguments all_rounds rest = codes "-c" ∷ rest
arguments (input_file path) rest = codes "-f" ∷ path ∷ rest
arguments (report_dir path) rest = codes "-r" ∷ path ∷ rest
arguments (tests n ns) rest = codes "-t" ∷ joined (n ∷ ns) ∷ rest
arguments (mode m) rest = mode_option m ∷ rest

-- What it does to the options.
abbrev pub chosen : Setting → CmdLineArgs → CmdLineArgs
chosen level_simple args = record args { verbose = true; verbose_lvl = 1 }
chosen level_detailed args = record args { verbose = true; verbose_lvl = 2 }
chosen quiet args = record args { verbose = false }
chosen one_round args = record args { quick = true }
chosen all_rounds args = record args { quick = false }
chosen (input_file path) args = record args { file_name = path }
chosen (report_dir path) args = record args { dir_name = path }
chosen (tests n ns) args = record args { test_list = reverse (n ∷ ns) ++ args.test_list }
chosen (mode m) args = record args { rt_mode = m }

abbrev pub Fits : ℕ → Setting → Type 0
Fits max (input_file path) = length path ≤ max
Fits max (report_dir path) = length path ≤ max
Fits max (tests n ns) = AreNames (n ∷ ns)
Fits max s = Unit {0}

abbrev pub AllFit : ℕ → List Setting → Type 0
AllFit max [] = Unit {0}
AllFit max (s ∷ ss) = Fits max s × AllFit max ss

abbrev pub all_arguments : List Setting → List Bytes → List Bytes
all_arguments [] rest = rest
all_arguments (s ∷ ss) rest = arguments s (all_arguments ss rest)

abbrev pub all_chosen : List Setting → CmdLineArgs → CmdLineArgs
all_chosen [] args = args
all_chosen (s ∷ ss) args = all_chosen ss (chosen s args)

module _ (max : ℕ) where
  copy_path-ok : (path : Bytes) → length path ≤ max → copy_path max path ≡ ok path
  unfolding copy_path
  copy_path-ok path h = rw (le→leb (length path) max h) refl

  parse_options-setting :
      (is_bad : Bool) (s : Setting) (rest : List Bytes) (args : CmdLineArgs)
      → Fits max s
      → parse_options max (arguments s rest) is_bad args
        ≡ parse_options max rest is_bad (chosen s args)
  unfolding parse_options arguments classify_option option_step take_argument mode_option
  parse_options-setting false level_simple [] args h = refl
  parse_options-setting true level_simple [] args h = refl
  parse_options-setting false level_simple (a ∷ rest) args h = refl
  parse_options-setting true level_simple (a ∷ rest) args h = refl
  parse_options-setting false level_detailed [] args h = refl
  parse_options-setting true level_detailed [] args h = refl
  parse_options-setting false level_detailed (a ∷ rest) args h = refl
  parse_options-setting true level_detailed (a ∷ rest) args h = refl
  parse_options-setting false quiet [] args h = refl
  parse_options-setting true quiet [] args h = refl
  parse_options-setting false quiet (a ∷ rest) args h = refl
  parse_options-setting true quiet (a ∷ rest) args h = refl
  parse_options-setting false one_round [] args h = refl
  parse_options-setting true one_round [] args h = refl
  parse_options-setting false one_round (a ∷ rest) args h = refl
  parse_options-setting true one_round (a ∷ rest) args h = refl
  parse_options-setting false all_rounds [] args h = refl
  parse_options-setting true all_rounds [] args h = refl
  parse_options-setting false all_rounds (a ∷ rest) args h = refl
  parse_options-setting true all_rounds (a ∷ rest) args h = refl
  parse_options-setting false (input_file path) rest args h = rw (copy_path-ok path h) refl
  parse_options-setting true (input_file path) rest args h = rw (copy_path-ok path h) refl
  parse_options-setting false (report_dir path) rest args h = rw (copy_path-ok path h) refl
  parse_options-setting true (report_dir path) rest args h = rw (copy_path-ok path h) refl
  parse_options-setting false (tests n ns) rest args h =
      rw (setup_testcase_names-joined args n ns h) refl
  parse_options-setting true (tests n ns) rest args h =
      rw (setup_testcase_names-joined args n ns h) refl
  parse_options-setting false (mode soft_rt) [] args h = refl
  parse_options-setting true (mode soft_rt) [] args h = refl
  parse_options-setting false (mode soft_rt) (a ∷ rest) args h = refl
  parse_options-setting true (mode soft_rt) (a ∷ rest) args h = refl
  parse_options-setting false (mode hard_rt) [] args h = refl
  parse_options-setting true (mode hard_rt) [] args h = refl
  parse_options-setting false (mode hard_rt) (a ∷ rest) args h = refl
  parse_options-setting true (mode hard_rt) (a ∷ rest) args h = refl
  parse_options-setting false (mode guaranteed_rt) [] args h = refl
  parse_options-setting true (mode guaranteed_rt) [] args h = refl
  parse_options-setting false (mode guaranteed_rt) (a ∷ rest) args h = refl
  parse_options-setting true (mode guaranteed_rt) (a ∷ rest) args h = refl

  settings-chosen :
      (is_bad : Bool) (ss : List Setting) (rest : List Bytes) (args : CmdLineArgs)
      → AllFit max ss
      → parse_options max (all_arguments ss rest) is_bad args
        ≡ parse_options max rest is_bad (all_chosen ss args)
  settings-chosen is_bad [] rest args h = refl
  settings-chosen is_bad (s ∷ ss) rest args (fits, h) =
      parse_options-setting is_bad s (all_arguments ss rest) args fits
      ∙ settings-chosen is_bad ss rest (chosen s args) h

  -- Written out as arguments, any list of settings with paths that fit and test names without a
  -- colon is read back: `parse_cmd_line` returns success with every setting made in order, the
  -- later ones over the earlier ones, and the names of the tests in reverse order.
  pub parse_cmd_line-chosen :
      (ss : List Setting) (args : CmdLineArgs)
      → AllFit max ss
      → parse_cmd_line max (all_arguments ss []) args ≡ ok (returned success (all_chosen ss args))
  unfolding parse_cmd_line parse_options
  parse_cmd_line-chosen ss args h = settings-chosen false ss [] args h

leb_of_gt : (a b : ℕ) → b < a → leb a b ≡ false
leb_of_gt a b h = ground arith

module _ (max : ℕ) where
  passed_over :
      (arg : Bytes) (rest : List Bytes) (args : CmdLineArgs)
      → classify_option arg ≡ unknown
      → parse_options max (arg ∷ rest) false args ≡ parse_options max rest true args
  unfolding parse_options option_step
  passed_over arg [] args h = rw h refl
  passed_over arg (next ∷ rest) args h = rw h refl

  -- An option that `parse_cmd_line` does not know, between any two lists of settings with paths that
  -- fit and test names without a colon: the call returns the error, but with all settings made, in
  -- order, those behind the unknown option too.
  pub parse_cmd_line-unknown :
      (ss ss' : List Setting) (arg : Bytes) (args : CmdLineArgs)
      → AllFit max ss
      → AllFit max ss'
      → classify_option arg ≡ unknown
      → parse_cmd_line max (all_arguments ss (arg ∷ all_arguments ss' [])) args
        ≡ ok (returned error (all_chosen ss' (all_chosen ss args)))
  unfolding parse_cmd_line
  parse_cmd_line-unknown ss ss' arg args fits fits' h =
      settings-chosen max false ss (arg ∷ all_arguments ss' []) args fits
      ∙ passed_over arg (all_arguments ss' []) (all_chosen ss args) h
      ∙ settings-chosen max true ss' [] (all_chosen ss args) fits'
      ∙ unfold parse_options in refl

  -- Without its argument an option that takes one ends the call with the error.
  pub parse_cmd_line-no_argument :
      (ss : List Setting) (arg : Bytes) (args : CmdLineArgs)
      → AllFit max ss
      → (classify_option arg ≡ file) ⊎ (classify_option arg ≡ report) ⊎ (classify_option arg ≡ test)
      → parse_cmd_line max (all_arguments ss (arg ∷ [])) args
        ≡ ok (returned error (all_chosen ss args))
  unfolding parse_cmd_line parse_options option_step take_argument
  parse_cmd_line-no_argument ss arg args fits h =
      settings-chosen max false ss (arg ∷ []) args fits ∙ elim h [
        | inl e ↦ rw (parse_options, e) refl
        | inr (inl e) ↦ rw (parse_options, e) refl
        | inr (inr e) ↦ rw (parse_options, e) refl
      ]

  -- No check guards the copy of a path: after any list of settings, one that is longer than the
  -- buffer overruns it, be it that of the input file or that of the directory of the report, and
  -- whatever follows.
  pub parse_cmd_line-long_path :
      (ss : List Setting) (path : Bytes) (rest : List Bytes) (args : CmdLineArgs)
      → AllFit max ss
      → max < length path
      → (parse_cmd_line max (all_arguments ss (arguments (input_file path) rest)) args
          ≡ fault buffer_overflow)
        × (parse_cmd_line max (all_arguments ss (arguments (report_dir path) rest)) args
            ≡ fault buffer_overflow)
  unfolding parse_cmd_line parse_options option_step take_argument copy_path arguments
      classify_option
  parse_cmd_line-long_path ss path rest args fits h = (
    settings-chosen max false ss (codes "-f" ∷ path ∷ rest) args fits
        ∙ rw (leb_of_gt (length path) max h) refl,
    settings-chosen max false ss (codes "-r" ∷ path ∷ rest) args fits
        ∙ rw (leb_of_gt (length path) max h) refl,
  )
