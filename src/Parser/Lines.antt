-- ===== src/Parser/Lines.antt =====
-- Single lines of the input file: the lines of a test with a value, and the lines that are refused.
use rtmb.Base.{
  ℕ, ◌<◌, ◌≡◌, ◌⊎◌, inl, inr, sym, refl, true, false, [], ◌∷◌, ◌++◌, some, arith, length, lt→ltb,
  ok, fault, bad_pointer,
}
use mathlib.Core.Path.{subst}
use rtmb.Base.Int.{pos}
use rtmb.Double.{Double}
use rtmb.CString.{codes, contains, starts_with, atoi}
use rtmb.CString.Tokens.{Free, IsToken, strtok-all, split_token-all}
use rtmb.Params.{Bytes, BenchmarkTest}
use rtmb.Parser.{
  in_int, Parse, go_on, return_error, chomp, classify, classify_param, classify_value, set_param,
  set_input_params, param_line, parse_kind, parse_line,
}

-- What stands behind the name of a value.
abbrev pub value_end : Bytes → Bytes
value_end v = b'=' ∷ (v ++ b'\n' ∷ [])

pub chomp-value_end : (v : Bytes) (c : ℕ) → chomp (c ∷ (v ++ b'\n' ∷ [])) ≡ c ∷ v
chomp-value_end [] c = refl
chomp-value_end (d ∷ v) c = rw (chomp-value_end v d) refl

-- A value that is no part of a name that the parser looks for.
abbrev pub IsPlain : Bytes → Type 0
IsPlain v = IsToken b'=' v × Free b't' v × Free b'r' v

starts-Free : (c : ℕ) (p v : Bytes) → Free c v → starts_with (c ∷ p) v ≡ false
starts-Free c p [] h = refl
starts-Free c p (d ∷ v) (ne, h) = ground (arith, ne)

contains-Free : (c : ℕ) (p v : Bytes) → Free c v → contains (c ∷ p) v ≡ false
contains-Free c p [] h = refl
contains-Free c p (d ∷ v) (ne, h) = ground (arith, ne, contains-Free c p v h)

module _ {F : Type 0} where
  -- The state inside a test.
  abbrev pub inside : Parse F → BenchmarkTest F → Parse F
  inside s t = record s { newtest = true; new_test_entry = some t }

module _ {F : Type 0} ⦃d : Double F⦄ (atof : Bytes → F) where
  pub name-line :
      (s : Parse F) (t : BenchmarkTest F) (v : Bytes)
      → IsToken b'=' v
      → length v < 32
      → parse_line atof (inside s t) (codes "name" ++ value_end v)
        ≡ ok (go_on (inside s (record t { name = v })))
  unfolding parse_line classify classify_param parse_kind param_line set_input_params set_param
  name-line s t v token fits =
      rw (chomp-value_end v b'=', strtok-all b'=' v token, lt→ltb (length v) 32 fits) refl

  pub desc-line :
      (s : Parse F) (t : BenchmarkTest F) (v : Bytes)
      → IsToken b'=' v
      → length v < 64
      → parse_line atof (inside s t) (codes "desc" ++ value_end v)
        ≡ ok (go_on (inside s (record t { desc = v })))
  unfolding parse_line classify classify_param parse_kind param_line set_input_params set_param
  desc-line s t v token fits =
      rw (chomp-value_end v b'=', strtok-all b'=' v token, lt→ltb (length v) 64 fits) refl

  pub threshold-line :
      (s : Parse F) (t : BenchmarkTest F) (v : Bytes)
      → IsToken b'=' v
      → in_int (atoi v) ≡ true
      → parse_line atof (inside s t) (codes "threshold" ++ value_end v)
        ≡ ok (go_on (inside s (record t { threshold = atoi v })))
  unfolding parse_line classify classify_param parse_kind param_line set_input_params set_param
  threshold-line s t v token int = rw (chomp-value_end v b'=', strtok-all b'=' v token, int) refl

  pub iterations-line :
      (s : Parse F) (t : BenchmarkTest F) (v : Bytes)
      → IsPlain v
      → in_int (atoi v) ≡ true
      → parse_line atof (inside s t) (codes "iterations" ++ value_end v)
        ≡ ok (go_on (inside s (record t { iterations = atoi v })))
  unfolding parse_line classify classify_param parse_kind param_line set_input_params set_param
  iterations-line s t v (token, plain_t, plain_r) int =
      rw
        (
          chomp-value_end v b'=',
          contains-Free b't' (codes "hreshold") v plain_t,
          contains-Free b'r' (codes "eference_score") v plain_r,
          strtok-all b'=' v token,
          int,
        )
        refl

  pub config_test-line :
      (s : Parse F) (t : BenchmarkTest F) (v : Bytes)
      → IsPlain v
      → in_int (atoi v) ≡ true
      → parse_line atof (inside s t) (codes "config_test" ++ value_end v)
        ≡ ok (go_on (inside s (record t { config_test = atoi v })))
  unfolding parse_line classify classify_param parse_kind param_line set_input_params set_param
  config_test-line s t v (token, plain_t, plain_r) int =
      rw
        (
          chomp-value_end v b'=',
          contains-Free b't' (codes "hreshold") v plain_t,
          contains-Free b'r' (codes "eference_score") v plain_r,
          strtok-all b'=' v token,
          int,
        )
        refl

  pub reference_score-line :
      (s : Parse F) (t : BenchmarkTest F) (v : Bytes)
      → IsPlain v
      → d.eq (atof v) (d.of_int (pos 0)) ≡ false
      → parse_line atof (inside s t) (codes "reference_score" ++ value_end v)
        ≡ ok (go_on (inside s (record t { reference_score = atof v })))
  unfolding parse_line classify classify_param parse_kind param_line set_input_params set_param
  reference_score-line s t v (token, plain_t, plain_r) ne =
      rw
        (
          chomp-value_end v b'=',
          contains-Free b't' (codes "hreshold") v plain_t,
          strtok-all b'=' v token,
          ne,
        )
        refl

  -- An empty line is refused in every state: the newline is gone before the test that was to
  -- ignore it.
  pub parse_line-blank : (s : Parse F) → parse_line atof s (codes "\n") ≡ ok (return_error s)
  unfolding parse_line classify classify_param classify_value parse_kind
  parse_line-blank s = refl

  -- Inside a test, a line that starts with "name" or "desc" and has no "=" behind it makes the
  -- parser copy from `NULL`.
  pub parse_line-no_value :
      (s : Parse F) (t : BenchmarkTest F) (word rest : Bytes)
      → (word ≡ codes "name") ⊎ (word ≡ codes "desc")
      → Free b'=' rest
      → parse_line atof (inside s t) (word ++ rest ++ b'\n' ∷ []) ≡ fault bad_pointer
  unfolding parse_line classify classify_param parse_kind param_line set_input_params set_param
  parse_line-no_value s t word rest (inl e) free =
      subst (λ w. parse_line atof (inside s t) (w ++ rest ++ b'\n' ∷ []) ≡ fault bad_pointer)
        (sym e) (rw (chomp-value_end rest b'e', split_token-all b'=' rest free) refl)
  parse_line-no_value s t word rest (inr e) free =
      subst (λ w. parse_line atof (inside s t) (w ++ rest ++ b'\n' ∷ []) ≡ fault bad_pointer)
        (sym e) (rw (chomp-value_end rest b'c', split_token-all b'=' rest free) refl)
