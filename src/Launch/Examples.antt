-- ===== src/Launch/Examples.antt =====
-- Runs of `launch_tests` on three tests that write their names into a log.
use rtmb.Base.{not, Bool, false, ◌≡◌, refl, List, [], ◌∷◌, ◌++◌}
use rtmb.Base.Int.{ℤ, pos}
use rtmb.Double.Whole.{whole}
use rtmb.CString.{codes}
use rtmb.Params.{Bytes, BenchmarkTest, InputParams, RtVals, CmdLineArgs, soft_rt}
use rtmb.Launch.{is_config, launch_tests}
use rtmb.Launch.Order.{logged, names_of, launch_tests-names_of}

abbrev vals : RtVals ℤ
vals = record { acceptable_percentage = pos 90; range_percentage = pos 10; multiplier = pos 2 }

abbrev params : InputParams ℤ
params = record { tests = []; hrt = vals; srt = vals; grt = vals }

abbrev all_tests : CmdLineArgs
all_tests = record {
  verbose = false;
  verbose_lvl = 0;
  quick = false;
  rt_mode = soft_rt;
  file_name = [];
  dir_name = [];
  test_list = [];
}

abbrev test_of : Bytes → ℤ → BenchmarkTest ℤ
test_of name config = record {
  name = name;
  desc = [];
  iterations = pos 5;
  config_test = config;
  threshold = pos 1;
  reference_score = pos 7;
}

abbrev lock : BenchmarkTest ℤ
lock = test_of (codes "lock") (pos 0)

abbrev two_tests : List (BenchmarkTest ℤ)
two_tests = test_of (codes "event") (pos 0) ∷ test_of (codes "clock") (pos 1) ∷ []

-- The configuration test passes and the others fail.
abbrev answer : BenchmarkTest ℤ → Bool
answer t = is_config t

launch_tests-names_of_example :
    (launch_tests (logged answer) params all_tests two_tests []).2
    ≡ ([] ++ names_of is_config two_tests) ++ names_of (λ t. not (is_config t)) two_tests
launch_tests-names_of_example = launch_tests-names_of answer params all_tests two_tests [] refl
