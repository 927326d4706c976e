-- ===== src/Parser.antt =====
-- rtmb_c/src/harness/RTMB_parse_in_file.c: the input file, line by line. A line is what `fgets`
-- returned, at most 1023 bytes with its newline included. `atof` (and `strtod`, which is the same
-- function) is a parameter; the fields of the expected values are of type `float`.
pub mod Lines
pub mod Reading
pub mod Brackets
pub mod RoundTrip
mod Examples
use rtmb.Base.{
  ◌||◌, ◌&&◌, ◌-◌, leb, arith_overflow, ℕ, suc, ◌==◌, not, Bool, true, false, List, [], ◌∷◌, ◌++◌,
  Option, none, some, ltb, length, if◌then◌else◌, Fault, bad_pointer, out_of_bounds,
  buffer_overflow, assert_failed, Run, ok, fault, ◌>>=◌, ◌>>◌, require,
}
use rtmb.Base.Int.{leb_ℤ, negsuc, ℤ, pos}
use rtmb.Double.{Double}
use rtmb.CString.{codes, equal, starts_with, contains, first_byte, strtok, atoi}
use rtmb.Params.{Bytes, RtVals, BenchmarkTest, InputParams}

-- `exp_vals_t`
pub data ExpVals : Type 0 where
  srt_acceptable_percent srt_range_percent srt_multiplier : ExpVals
  hrt_acceptable_percent hrt_range_percent hrt_multiplier : ExpVals
  grt_acceptable_percent grt_range_percent grt_multiplier : ExpVals

-- `param_t`
pub data Param : Type 0 where
  name desc iterations config_test threshold reference_score : Param

-- The branch of `parse_input_file` that a line takes.
pub data LineKind : Type 0 where
  ignored open_test close_test unexpected : LineKind
  test_param : Param → LineKind
  exp_value : ExpVals → LineKind

-- `input_line[len - 1]`, and the line without a newline there. `fgets` returns no empty string, and
-- one that starts with a NUL is read in front of its first byte.
abbrev pub chomp : Bytes → Bytes
chomp [] = []
chomp (c ∷ []) = if c == b'\n' then [] else c ∷ []
chomp (c ∷ e ∷ s) = c ∷ chomp (e ∷ s)

-- The chain of the `strstr` tests on the expected values.
unfoldable pub classify_value : Bytes → LineKind
classify_value line =
    if contains (codes "soft.acceptable_percentage") line
    then exp_value srt_acceptable_percent
    else if contains (codes "soft.range_percentage") line
    then exp_value srt_range_percent
    else if contains (codes "soft.multiplier") line
    then exp_value srt_multiplier
    else if contains (codes "hard.acceptable_percentage") line
    then exp_value hrt_acceptable_percent
    else if contains (codes "hard.range_percentage") line
    then exp_value hrt_range_percent
    else if contains (codes "hard.multiplier") line
    then exp_value hrt_multiplier
    else if contains (codes "guaranteed.acceptable_percentage") line
    then exp_value grt_acceptable_percent
    else if contains (codes "guaranteed.range_percentage") line
    then exp_value grt_range_percent
    else if contains (codes "guaranteed.multiplier") line
    then exp_value grt_multiplier
    else unexpected

unfoldable pub classify_param : Bytes → LineKind
classify_param line =
    if starts_with (codes "name") line
    then test_param name
    else if starts_with (codes "desc") line
    then test_param desc
    else if contains (codes "threshold") line
    then test_param threshold
    else if contains (codes "reference_score") line
    then test_param reference_score
    else if starts_with (codes "iterations") line
    then test_param iterations
    else if starts_with (codes "config_test") line
    then test_param config_test
    else classify_value line

unfoldable pub classify : Bytes → LineKind
classify line =
    if first_byte line == b'#'
    then ignored
    else if first_byte line == b'\n'
    then ignored
    else if first_byte line == b' '
    then ignored
    else if equal line (codes "test")
    then open_test
    else if equal line (codes "/test")
    then close_test
    else classify_param line

-- `MAX_INPUT_LINE_SIZE`, less the byte for the NUL.
abbrev pub max_line : ℕ
max_line = 1023

abbrev push : ℕ → List Bytes → List Bytes
push c [] = (c ∷ []) ∷ []
push c (l ∷ ls) = (c ∷ l) ∷ ls

-- What the calls of `fgets` return for the bytes of a file, the first with room for so many bytes:
-- each ends behind a newline, or when its room is used up.
unfoldable pub read_lines : ℕ → Bytes → List Bytes
read_lines room [] = []
read_lines room (c ∷ s) =
    let ends = c == b'\n' || leb room 1 in
    let later = read_lines (if ends then max_line else room - 1) s in
    if ends then (c ∷ []) ∷ later else push c later

-- `atoi` of a number that is no `int` is not defined.
abbrev pub in_int : ℤ → Bool
in_int n = leb_ℤ (negsuc 2147483647) n && leb_ℤ n (pos 2147483647)

abbrev atoi_int : Bytes → Run ℤ
atoi_int v = if in_int (atoi v) then ok (atoi v) else fault arith_overflow

-- `strcpy` into an array of `size` bytes.
abbrev copy_into : ℕ → Bytes → Run Bytes
copy_into size s = if ltb (length s) size then ok s else fault buffer_overflow

-- The variables of `parse_input_file`. `new_test_entry` has no value before the first "test".
pub record Parse (F : Type 0) : Type 0 where
  pub newtest : Bool
  pub new_test_entry : Option (BenchmarkTest F)
  pub ifl_params : InputParams F

-- `return ERROR` stops with the values set so far.
pub data Next (F : Type 0) : Type 0 where
  go_on : Parse F → Next F
  return_error : Parse F → Next F

module _ {F : Type 0} ⦃d : Double F⦄ where
  -- The switch of `set_exp_values`.
  unfoldable pub with_exp_value : ExpVals → InputParams F → F → InputParams F
  with_exp_value srt_acceptable_percent p x = record p {
    srt = record p.srt { acceptable_percentage = d.to_float x };
  }
  with_exp_value srt_range_percent p x = record p {
    srt = record p.srt { range_percentage = d.to_float x };
  }
  with_exp_value srt_multiplier p x = record p { srt = record p.srt { multiplier = d.to_float x } }
  with_exp_value hrt_acceptable_percent p x = record p {
    hrt = record p.hrt { acceptable_percentage = d.to_float x };
  }
  with_exp_value hrt_range_percent p x = record p {
    hrt = record p.hrt { range_percentage = d.to_float x };
  }
  with_exp_value hrt_multiplier p x = record p { hrt = record p.hrt { multiplier = d.to_float x } }
  with_exp_value grt_acceptable_percent p x = record p {
    grt = record p.grt { acceptable_percentage = d.to_float x };
  }
  with_exp_value grt_range_percent p x = record p {
    grt = record p.grt { range_percentage = d.to_float x };
  }
  with_exp_value grt_multiplier p x = record p { grt = record p.grt { multiplier = d.to_float x } }

module _ {F : Type 0} where
  unfoldable pub insert_new_test_entry : InputParams F → BenchmarkTest F → InputParams F
  insert_new_test_entry p e = record p { tests = e ∷ p.tests }

module _ {F : Type 0} ⦃d : Double F⦄ where
  -- The struct that `calloc` clears.
  abbrev pub alloc_new_benchmark_test : BenchmarkTest F
  alloc_new_benchmark_test = record {
    name = [];
    desc = [];
    iterations = pos 0;
    config_test = pos 0;
    threshold = pos 0;
    reference_score = d.of_int (pos 0);
  }

module _ {F : Type 0} ⦃d : Double F⦄ (atof : Bytes → F) where
  unfoldable pub set_exp_values : InputParams F → Bytes → ExpVals → Option (InputParams F)
  set_exp_values p line v = elim (strtok b'=' line) [
    | none ↦ none
    | some (key, rest) ↦ elim (strtok b'=' rest) [
      | none ↦ none
      | some (value, more) ↦ some (with_exp_value v p (atof value))
    ]
  ]

  -- The switch of `set_input_params`, at a second token. The flag says whether 0 is returned.
  unfoldable pub set_param : BenchmarkTest F → Param → Bytes → Run (Bool × BenchmarkTest F)
  set_param t name v = do s ← copy_into 32 v; ok (true, record t { name = s })
  set_param t desc v = do s ← copy_into 64 v; ok (true, record t { desc = s })
  set_param t iterations v = do n ← atoi_int v; ok (true, record t { iterations = n })
  set_param t config_test v = do n ← atoi_int v; ok (true, record t { config_test = n })
  set_param t threshold v = do n ← atoi_int v; ok (true, record t { threshold = n })
  set_param t reference_score v =
      let x = atof v in ok (not (d.eq x (d.of_int (pos 0))), record t { reference_score = x })

  -- Without a second token every branch reads through `NULL`.
  unfoldable pub set_input_params : BenchmarkTest F → Bytes → Param → Run (Bool × BenchmarkTest F)
  set_input_params t line param = elim (strtok b'=' line) [
    | none ↦ ok (false, t)
    | some (key, rest) ↦ elim (strtok b'=' rest) [
      | none ↦ fault bad_pointer
      | some (value, more) ↦ set_param t param value
    ]
  ]

  -- A line of a test: only inside a test, by `assert`.
  unfoldable pub param_line : Parse F → Bytes → Param → Run (Next F)
  param_line s line p = do
    require assert_failed s.newtest
    t ← elim s.new_test_entry [ none ↦ fault bad_pointer | some t ↦ ok t ]
    (done, t) ← set_input_params t line p
    let s = record s { new_test_entry = some t }
    ok (if done then go_on s else return_error s)

  -- The branch of the loop body that a line takes.
  unfoldable pub parse_kind : LineKind → Parse F → Bytes → Run (Next F)
  parse_kind ignored s line = ok (go_on s)
  parse_kind open_test s line =
      if s.newtest
      then ok (return_error s)
      else ok (go_on (record s { newtest = true; new_test_entry = some alloc_new_benchmark_test }))
  parse_kind close_test s line =
      if s.newtest
      then elim s.new_test_entry [
        | none ↦ fault bad_pointer
        | some t ↦ ok (
            go_on (record s { newtest = false; ifl_params = insert_new_test_entry s.ifl_params t }))
      ]
      else ok (return_error s)
  parse_kind (test_param p) s line = param_line s line p
  parse_kind (exp_value v) s line = elim (set_exp_values s.ifl_params line v) [
    | none ↦ ok (return_error s)
    | some p ↦ ok (go_on (record s { ifl_params = p }))
  ]
  parse_kind unexpected s line = ok (return_error s)

  -- One round of the loop, on what `fgets` returned.
  unfoldable pub parse_line : Parse F → Bytes → Run (Next F)
  parse_line s [] = fault out_of_bounds
  parse_line s (c ∷ line) =
      let input_line = chomp (c ∷ line) in parse_kind (classify input_line) s input_line

  -- The whole loop: the flag says whether 0 is returned.
  unfoldable pub parse_lines : Parse F → List Bytes → Run (Bool × Parse F)
  parse_lines s [] = ok (true, s)
  parse_lines s (line ∷ lines) = do
    next ← parse_line s line
    elim next [ go_on s' ↦ parse_lines s' lines | return_error s' ↦ ok (false, s') ]

  -- `fopen` may fail, or gives the bytes of the file; `newtest` starts at 0.
  unfoldable pub parse_input_file : Option Bytes → InputParams F → Run (Bool × InputParams F)
  unfolding parse_lines
  parse_input_file none p = ok (false, p)
  parse_input_file (some file) p = do
    (done, s) ←
        parse_lines (record { newtest = false; new_test_entry = none; ifl_params = p })
          (read_lines max_line file)
    ok (done, s.ifl_params)
