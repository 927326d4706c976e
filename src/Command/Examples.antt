-- ===== src/Command/Examples.antt =====
-- Runs of `parse_cmd_line` on concrete options, with paths of at most 8 bytes.
use rtmb.Base.{◌≡◌, refl, List, [], ◌∷◌, false, arith, ok, fault, buffer_overflow}
use rtmb.Base.Int.{error, success}
use rtmb.CString.{codes}
use rtmb.Params.{Bytes, CmdLineArgs, soft_rt, hard_rt}
use rtmb.Command.{parse_cmd_line, returned, classify_option, unknown}
use rtmb.Command.Names.{AreNames}
use rtmb.Command.Options.{
  report_dir, Setting, level_detailed, input_file, tests, mode, all_arguments, all_chosen,
  arguments, AllFit, parse_cmd_line-chosen, parse_cmd_line-unknown, parse_cmd_line-long_path,
}

abbrev defaults : CmdLineArgs
defaults = record {
  verbose = false;
  verbose_lvl = 0;
  quick = false;
  rt_mode = soft_rt;
  file_name = codes "in";
  dir_name = codes ".";
  test_list = [];
}

abbrev clock : Bytes
clock = codes "clock"

abbrev lock : Bytes
lock = codes "lock"

two_names : AreNames (clock ∷ lock ∷ [])
two_names = ((ground arith, ground arith), ((ground arith, ground arith), tt))

abbrev settings : List Setting
settings = level_detailed ∷ mode hard_rt ∷ tests clock (lock ∷ []) ∷ input_file (codes "a.txt") ∷ []

settings_fit : AllFit 8 settings
settings_fit = (tt, (tt, (two_names, (ground arith, tt))))

parse_cmd_line-chosen_example :
    parse_cmd_line 8 (all_arguments settings []) defaults
    ≡ ok (returned success (all_chosen settings defaults))
parse_cmd_line-chosen_example = parse_cmd_line-chosen 8 settings defaults settings_fit

wrong_option : classify_option (codes "--fast") ≡ unknown
unfolding classify_option
wrong_option = refl

parse_cmd_line-unknown_example :
    parse_cmd_line 8 (all_arguments settings (codes "--fast" ∷ all_arguments settings [])) defaults
    ≡ ok (returned error (all_chosen settings (all_chosen settings defaults)))
parse_cmd_line-unknown_example =
    parse_cmd_line-unknown 8 settings settings (codes "--fast") defaults settings_fit settings_fit
      wrong_option

parse_cmd_line-long_path_example :
    (parse_cmd_line 8
        (all_arguments settings (arguments (input_file (codes "input.text")) []))
        defaults
      ≡ fault buffer_overflow)
    × (parse_cmd_line 8
          (all_arguments settings (arguments (report_dir (codes "input.text")) []))
          defaults
        ≡ fault buffer_overflow)
parse_cmd_line-long_path_example =
    parse_cmd_line-long_path 8 settings (codes "input.text") [] defaults settings_fit (omega arith)
