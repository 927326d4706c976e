-- ===== src/Params.antt =====
-- The data that the command line and the input file leave behind: rtmb_c/src/harness/include/
-- RTMB_rd_cmd_line.h and RTMB_parse_in_file.h. A pointer `_inp_params` of a test leads back to the
-- one `input_params` of the program, which is passed on beside the test here.
pub mod Percent
use rtmb.Base.{ℕ, List, Bool}
use rtmb.Base.Int.{ℤ}

abbrev pub Bytes : Type 0
Bytes = List ℕ

-- `real_time_mode_t`
pub data RtMode : Type 0 where
  soft_rt hard_rt guaranteed_rt : RtMode

-- `hrt_vals_t`, `srt_vals_t` and `guaranteedrt_vals_t`, which have the same fields.
pub record RtVals (F : Type 0) : Type 0 where
  pub acceptable_percentage : F
  pub range_percentage : F
  pub multiplier : F

-- `benchmark_test`, but `_times`, which the code does not use.
pub record BenchmarkTest (F : Type 0) : Type 0 where
  pub name : Bytes
  pub desc : Bytes
  pub iterations : ℤ
  pub config_test : ℤ
  pub threshold : ℤ
  pub reference_score : F

-- `input_params`: the tests in the order of the linked list.
pub record InputParams (F : Type 0) : Type 0 where
  pub tests : List (BenchmarkTest F)
  pub hrt : RtVals F
  pub srt : RtVals F
  pub grt : RtVals F

-- `cmd_line_args`: the names of the tests in the order of the linked list.
pub record CmdLineArgs : Type 0 where
  pub verbose : Bool
  pub verbose_lvl : ℕ
  pub quick : Bool
  pub rt_mode : RtMode
  pub file_name : Bytes
  pub dir_name : Bytes
  pub test_list : List Bytes

module _ {F : Type 0} where
  -- The values that the `if`s on `_rt_mode` choose.
  abbrev pub vals_of : RtMode → InputParams F → RtVals F
  vals_of soft_rt p = p.srt
  vals_of hard_rt p = p.hrt
  vals_of guaranteed_rt p = p.grt

  abbrev pub set_vals : RtMode → InputParams F → RtVals F → InputParams F
  set_vals soft_rt p v = record p { srt = v }
  set_vals hard_rt p v = record p { hrt = v }
  set_vals guaranteed_rt p v = record p { grt = v }
