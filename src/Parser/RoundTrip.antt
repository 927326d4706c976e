-- ===== src/Parser/RoundTrip.antt =====
-- An input file written from a list of tests is read back to that list.
use mathlib.Core.List.{reverse-cons, append_assoc}
use rtmb.Base.{
  arith, none, ◌<◌, ◌≡◌, ◌∙◌, ap, refl, Bool, true, false, List, [], ◌∷◌, ◌++◌, reverse, map, some,
  length, Run, ok, ◌>>=◌,
}
use rtmb.Base.Int.{pos}
use rtmb.Double.{Double}
use rtmb.CString.{codes, atoi}
use rtmb.CString.Tokens.{IsToken}
use rtmb.Params.{Bytes, BenchmarkTest, InputParams}
use rtmb.Parser.{
  in_int, Parse, go_on, alloc_new_benchmark_test, insert_new_test_entry, classify, parse_kind,
  parse_line, parse_lines, parse_input_file,
}
use rtmb.Parser.Reading.{IsLine, one_line, bytes_of, AreLines, value-IsLine, read_lines-bytes_of}
use rtmb.Parser.Lines.{
  IsPlain, value_end, inside, name-line, desc-line, threshold-line, iterations-line,
  config_test-line, reference_score-line,
}

-- The values of a test as they stand in the file.
pub record TestText : Type 0 where
  pub name : Bytes
  pub desc : Bytes
  pub iterations : Bytes
  pub config_test : Bytes
  pub threshold : Bytes
  pub reference_score : Bytes

abbrev pub lines_of : TestText → List Bytes → List Bytes
lines_of x rest =
    codes "test\n"
    ∷ (codes "name" ++ value_end x.name)
    ∷ (codes "desc" ++ value_end x.desc)
    ∷ (codes "iterations" ++ value_end x.iterations)
    ∷ (codes "config_test" ++ value_end x.config_test)
    ∷ (codes "threshold" ++ value_end x.threshold)
    ∷ (codes "reference_score" ++ value_end x.reference_score)
    ∷ codes "/test\n"
    ∷ rest

abbrev pub all_lines : List TestText → List Bytes
all_lines [] = []
all_lines (x ∷ xs) = lines_of x (all_lines xs)

-- No newline, no NUL, and short enough to stand in a line with its name.
pub record StaysInLine (v : Bytes) : Type 0 where
  pub no_newline : one_line v ≡ true
  pub short : length v < 1000

module _ {F : Type 0} where
  -- The state behind a test.
  abbrev pub behind : Parse F → BenchmarkTest F → Parse F
  behind s t = record s {
    newtest = false;
    new_test_entry = some t;
    ifl_params = insert_new_test_entry s.ifl_params t;
  }

module _ {F : Type 0} ⦃d : Double F⦄ (atof : Bytes → F) where
  -- Values that fit their arrays and their lines and hold no "=", numbers of type `int`, and a score
  -- that is not 0.
  pub record IsTestText (x : TestText) : Type 0 where
    pub name_is : IsToken b'=' x.name
    pub name_fits : length x.name < 32
    pub desc_is : IsToken b'=' x.desc
    pub desc_fits : length x.desc < 64
    pub iterations_is : IsPlain x.iterations
    pub config_test_is : IsPlain x.config_test
    pub threshold_is : IsToken b'=' x.threshold
    pub score_is : IsPlain x.reference_score
    pub name_stays : StaysInLine x.name
    pub desc_stays : StaysInLine x.desc
    pub iterations_stays : StaysInLine x.iterations
    pub config_test_stays : StaysInLine x.config_test
    pub threshold_stays : StaysInLine x.threshold
    pub score_stays : StaysInLine x.reference_score
    pub iterations_int : in_int (atoi x.iterations) ≡ true
    pub config_test_int : in_int (atoi x.config_test) ≡ true
    pub threshold_int : in_int (atoi x.threshold) ≡ true
    pub score_not_zero : d.eq (atof x.reference_score) (d.of_int (pos 0)) ≡ false

  abbrev pub AreTestTexts : List TestText → Type 0
  AreTestTexts [] = Unit {0}
  AreTestTexts (x ∷ xs) = IsTestText x × AreTestTexts xs

  abbrev pub entry_of : TestText → BenchmarkTest F
  entry_of x = record {
    name = x.name;
    desc = x.desc;
    iterations = atoi x.iterations;
    config_test = atoi x.config_test;
    threshold = atoi x.threshold;
    reference_score = atof x.reference_score;
  }

  parse_lines-go_on :
      (s s' : Parse F) (line : Bytes) (rest : List Bytes)
      → parse_line atof s line ≡ ok (go_on s')
      → parse_lines atof s (line ∷ rest) ≡ parse_lines atof s' rest
  unfolding parse_lines
  parse_lines-go_on s s' line rest h = rw h refl

  open-line :
      (s : Parse F)
      → s.newtest ≡ false
      → parse_line atof s (codes "test\n") ≡ ok (go_on (inside s alloc_new_benchmark_test))
  unfolding parse_line classify parse_kind
  open-line s h = rw h refl

  close-line :
      (s : Parse F) (t : BenchmarkTest F)
      → parse_line atof (inside s t) (codes "/test\n") ≡ ok (go_on (behind s t))
  unfolding parse_line classify parse_kind
  close-line s t = refl

  -- Outside a test, the lines of a test add one entry with their values in front of the tests, and
  -- the parser stands outside a test again.
  pub parse_lines-test :
      (s : Parse F) (x : TestText) (rest : List Bytes)
      → s.newtest ≡ false
      → IsTestText x
      → parse_lines atof s (lines_of x rest) ≡ parse_lines atof (behind s (entry_of x)) rest
  parse_lines-test s x rest h is =
      parse_lines-go_on _ _ _ _ (open-line s h)
      ∙ parse_lines-go_on _ _ _ _ (name-line atof s _ x.name is.name_is is.name_fits)
      ∙ parse_lines-go_on _ _ _ _ (desc-line atof s _ x.desc is.desc_is is.desc_fits)
      ∙ parse_lines-go_on _ _ _ _
          (iterations-line atof s _ x.iterations is.iterations_is is.iterations_int)
      ∙ parse_lines-go_on _ _ _ _
          (config_test-line atof s _ x.config_test is.config_test_is is.config_test_int)
      ∙ parse_lines-go_on _ _ _ _
          (threshold-line atof s _ x.threshold is.threshold_is is.threshold_int)
      ∙ parse_lines-go_on _ _ _ _
          (reference_score-line atof s _ x.reference_score is.score_is is.score_not_zero)
      ∙ parse_lines-go_on _ _ _ _ (close-line s (entry_of x))

  in_front : List TestText → List (BenchmarkTest F) → List (BenchmarkTest F)
  in_front [] tests = tests
  in_front (x ∷ xs) tests = in_front xs (entry_of x ∷ tests)

  in_front-reverse :
      (xs : List TestText) (tests : List (BenchmarkTest F))
      → in_front xs tests ≡ reverse (map entry_of xs) ++ tests
  unfolding in_front
  in_front-reverse [] tests = refl
  in_front-reverse (x ∷ xs) tests =
      rw
        (
          reverse-cons (entry_of x) (map entry_of xs),
          append_assoc (reverse (map entry_of xs)) (entry_of x ∷ []) tests,
        )
        (in_front-reverse xs (entry_of x ∷ tests))

  abbrev finish : Run (Bool × Parse F) → Run (Bool × InputParams F)
  finish r = do (done, s) ← r; ok (done, s.ifl_params)

  parse_lines-in_front :
      (s : Parse F) (xs : List TestText)
      → s.newtest ≡ false
      → AreTestTexts xs
      → finish (parse_lines atof s (all_lines xs))
        ≡ ok (true, record s.ifl_params { tests = in_front xs s.ifl_params.tests })
  unfolding parse_lines in_front insert_new_test_entry
  parse_lines-in_front s [] h is = refl
  parse_lines-in_front s (x ∷ xs) h (test, is) =
      ap finish (parse_lines-test s x (all_lines xs) h test)
      ∙ parse_lines-in_front (behind s (entry_of x)) xs refl is

  all_lines-AreLines : (xs : List TestText) → AreTestTexts xs → AreLines (all_lines xs)
  all_lines-AreLines [] is = tt
  all_lines-AreLines (x ∷ xs) (t, is) =
      let opened : IsLine (codes "test\n") = record {
        words = codes "test";
        ended = refl;
        no_newline = refl;
        short = omega arith;
      } in
      let closed : IsLine (codes "/test\n") = record {
        words = codes "/test";
        ended = refl;
        no_newline = refl;
        short = omega arith;
      } in
      let value : (word v : Bytes)
          → one_line word ≡ true
          → length word < 20
          → StaysInLine v
          → IsLine (word ++ value_end v) =
        λ word v h small stays. value-IsLine word v h small stays.no_newline stays.short in
      let scored =
        value (codes "reference_score") x.reference_score refl (omega arith) t.score_stays in
      let tried = value (codes "threshold") x.threshold refl (omega arith) t.threshold_stays in
      let configured =
        value (codes "config_test") x.config_test refl (omega arith) t.config_test_stays in
      let repeated =
        value (codes "iterations") x.iterations refl (omega arith) t.iterations_stays in
      let described = value (codes "desc") x.desc refl (omega arith) t.desc_stays in
      let named = value (codes "name") x.name refl (omega arith) t.name_stays in
      let later = all_lines-AreLines xs is in
      (opened, (named, (described, (repeated, (configured, (tried, (scored, (closed, later))))))))

  -- The bytes of a file are written from tests whose values hold no "=", no newline and no NUL and fit into
  -- their arrays and lines, with numbers of type `int` that hold neither "t" nor "r", and scores that
  -- are not 0. Then the file is accepted: it adds exactly these tests, the last one first, and sets
  -- nothing else.
  pub parse_input_file-all_lines :
      (p : InputParams F) (xs : List TestText)
      → AreTestTexts xs
      → parse_input_file atof (some (bytes_of (all_lines xs))) p
        ≡ ok (true, record p { tests = reverse (map entry_of xs) ++ p.tests })
  unfolding parse_input_file
  parse_input_file-all_lines p xs is =
      ap
        (λ ls.
          finish (
            parse_lines atof (record { newtest = false; new_test_entry = none; ifl_params = p })
              ls))
        (read_lines-bytes_of (all_lines xs) (all_lines-AreLines xs is))
      ∙ parse_lines-in_front _ xs refl is
      ∙ ap (λ l. ok (true, record p { tests = l })) (in_front-reverse xs p.tests)
