-- ===== src/Parser/Examples.antt =====
-- Runs of the parser on concrete lines, with whole numbers for `double` and `atof`.
use rtmb.Parser.Reading.{bytes_of}
use rtmb.Base.{◌≡◌, refl, true, false, [], ◌∷◌, ◌++◌, map, reverse, none, some, arith, ok, ◌+◌}
use rtmb.Base.Int.{ℤ, pos}
use rtmb.Double.Whole.{whole}
use rtmb.CString.{codes, atoi}
use rtmb.Params.{InputParams, RtVals}
use rtmb.Parser.{Parse, insert_new_test_entry, parse_lines, parse_input_file}
use rtmb.Parser.Brackets.{kind_of, Alternates, closed_tests, parse_lines-Alternates}
use rtmb.Parser.RoundTrip.{
  TestText, IsTestText, all_lines, entry_of, lines_of, behind, parse_lines-test,
  parse_input_file-all_lines,
}

abbrev no_vals : RtVals ℤ
no_vals = record { acceptable_percentage = pos 0; range_percentage = pos 0; multiplier = pos 0 }

abbrev no_tests : InputParams ℤ
no_tests = record { tests = []; hrt = no_vals; srt = no_vals; grt = no_vals }

abbrev outside : Parse ℤ
outside = record { newtest = false; new_test_entry = none; ifl_params = no_tests }

abbrev clock_text : TestText
clock_text = record {
  name = codes "clock";
  desc = codes "time";
  iterations = codes "50";
  config_test = codes "1";
  threshold = codes "3";
  reference_score = codes "7";
}

clock_is : IsTestText atoi clock_text
unfolding atoi
clock_is = record {
  name_is = (ground arith, ground arith);
  name_fits = omega arith;
  desc_is = (ground arith, ground arith);
  desc_fits = omega arith;
  iterations_is = ((ground arith, ground arith), ground arith, ground arith);
  config_test_is = ((ground arith, ground arith), ground arith, ground arith);
  threshold_is = (ground arith, ground arith);
  score_is = ((ground arith, ground arith), ground arith, ground arith);
  name_stays = record { no_newline = refl; short = omega arith };
  desc_stays = record { no_newline = refl; short = omega arith };
  iterations_stays = record { no_newline = refl; short = omega arith };
  config_test_stays = record { no_newline = refl; short = omega arith };
  threshold_stays = record { no_newline = refl; short = omega arith };
  score_stays = record { no_newline = refl; short = omega arith };
  iterations_int = refl;
  config_test_int = refl;
  threshold_int = refl;
  score_not_zero = refl;
}

parse_input_file-all_lines_example :
    parse_input_file atoi (some (bytes_of (all_lines (clock_text ∷ [])))) no_tests
    ≡ ok (true, record no_tests { tests = reverse (map (entry_of atoi) (clock_text ∷ [])) ++ [] })
parse_input_file-all_lines_example =
    parse_input_file-all_lines atoi no_tests (clock_text ∷ []) (clock_is, tt)

clock_read :
    parse_lines atoi outside (lines_of clock_text [])
    ≡ ok (true, behind outside (entry_of atoi clock_text))
unfolding parse_lines
clock_read = parse_lines-test atoi outside clock_text [] refl clock_is

parse_lines-Alternates_example :
    Alternates false (map kind_of (lines_of clock_text [])) false
    × (1 ≡ 0 + closed_tests (map kind_of (lines_of clock_text [])))
unfolding insert_new_test_entry
parse_lines-Alternates_example =
    parse_lines-Alternates atoi outside (behind outside (entry_of atoi clock_text))
      (lines_of clock_text []) clock_read
