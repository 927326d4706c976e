-- ===== src/Parser/Brackets.antt =====
-- The lines "test" and "/test" of a file that the parser accepts.
use mathlib.Core.Path.{subst}
use rtmb.Base.{
  ℕ, suc, ◌+◌, ◌≡◌, refl, Bool, true, false, List, [], ◌∷◌, map, Option, none, some, arith, length,
  Bool-cases, Option-cases, inl, inr, Run, require, assert_failed, bad_pointer, ok, fault,
  out_of_fuel, ◌>>=◌, if◌then◌else◌,
}
use rtmb.Double.{Double}
use rtmb.CString.{strtok}
use rtmb.Params.{Bytes, BenchmarkTest, InputParams}
use rtmb.Parser.{
  LineKind, ignored, open_test, close_test, srt_acceptable_percent, srt_range_percent,
  srt_multiplier, hrt_acceptable_percent, hrt_range_percent, hrt_multiplier, grt_acceptable_percent,
  grt_range_percent, grt_multiplier, unexpected, test_param, exp_value, ExpVals, Param, Parse, Next,
  go_on, return_error, chomp, classify, set_exp_values, with_exp_value, insert_new_test_entry,
  param_line, set_input_params, parse_kind, parse_line, parse_lines,
}

-- What the parser sees in a line.
abbrev pub kind_of : Bytes → LineKind
kind_of line = classify (chomp line)

-- Every "test" stands outside a test and every "/test" inside one, from the state `was` on, and the
-- state at the end is `is`.
abbrev pub Alternates : Bool → List LineKind → Bool → Type 0
Alternates was [] is = was ≡ is
Alternates was (open_test ∷ ks) is = (was ≡ false) × Alternates true ks is
Alternates was (close_test ∷ ks) is = (was ≡ true) × Alternates false ks is
Alternates was (k ∷ ks) is = Alternates was ks is

abbrev pub closed_tests : List LineKind → ℕ
closed_tests [] = 0
closed_tests (close_test ∷ ks) = suc (closed_tests ks)
closed_tests (k ∷ ks) = closed_tests ks

-- What holds of a value, if there is one.
abbrev Holds {ℓ} : {A : Type ℓ} → (A → Type 0) → Run A → Type 0
Holds P (ok a) = P a
Holds P (fault f) = Unit {0}
Holds P out_of_fuel = Unit {0}

Holds-bind {ℓ κ} :
    {A : Type ℓ} {B : Type κ} (P : A → Type 0) (Q : B → Type 0) (r : Run A) (k : A → Run B)
    → Holds P r
    → ((a : A) → P a → Holds Q (k a))
    → Holds Q (r >>= k)
Holds-bind P Q (ok a) k p next = next a p
Holds-bind P Q (fault f) k p next = tt
Holds-bind P Q out_of_fuel k p next = tt

module _ {F : Type 0} where
  abbrev pub test_count : Parse F → ℕ
  test_count s = length s.ifl_params.tests

  -- A line of this kind leads from `s` to `s'`.
  abbrev Leads : LineKind → Parse F → Parse F → Type 0
  Leads open_test s s' = (s.newtest ≡ false) × (s'.newtest ≡ true) × (test_count s' ≡ test_count s)
  Leads close_test s s' =
      (s.newtest ≡ true) × (s'.newtest ≡ false) × (test_count s' ≡ suc (test_count s))
  Leads k s s' = (s'.newtest ≡ s.newtest) × (test_count s' ≡ test_count s)

  abbrev After : LineKind → Parse F → Next F → Type 0
  After k s (go_on s') = Leads k s s'
  After k s (return_error s') = Unit {0}

  abbrev Balanced : Parse F → List LineKind → Bool × Parse F → Type 0
  Balanced s ks (true, s') =
      Alternates s.newtest ks s'.newtest × (test_count s' ≡ test_count s + closed_tests ks)
  Balanced s ks (false, s') = Unit {0}

  Balanced-same :
      (s s1 s' : Parse F) (ks : List LineKind)
      → (s1.newtest ≡ s.newtest) × (test_count s1 ≡ test_count s)
      → Balanced s1 ks (true, s')
      → Balanced s ks (true, s')
  Balanced-same s s1 s' ks (now, same) (alt, n) =
      (subst (λ b. Alternates b ks s'.newtest) now alt, omega (arith, same, n))

  Balanced-cons :
      (s s1 s' : Parse F) (k : LineKind) (ks : List LineKind)
      → Leads k s s1
      → Balanced s1 ks (true, s')
      → Balanced s (k ∷ ks) (true, s')
  Balanced-cons s s1 s' open_test ks (was, now, same) (alt, n) =
      ((was, subst (λ b. Alternates b ks s'.newtest) now alt), omega (arith, same, n))
  Balanced-cons s s1 s' close_test ks (was, now, more) (alt, n) =
      ((was, subst (λ b. Alternates b ks s'.newtest) now alt), omega (arith, more, n))
  Balanced-cons s s1 s' ignored ks same h = Balanced-same s s1 s' ks same h
  Balanced-cons s s1 s' unexpected ks same h = Balanced-same s s1 s' ks same h
  Balanced-cons s s1 s' (test_param p) ks same h = Balanced-same s s1 s' ks same h
  Balanced-cons s s1 s' (exp_value v) ks same h = Balanced-same s s1 s' ks same h

  abbrev SameTests : InputParams F → Option (InputParams F) → Type 0
  SameTests p none = Unit {0}
  SameTests p (some p') = length p'.tests ≡ length p.tests

  Holds-params :
      (s : Parse F) (v : ExpVals) (o : Option (InputParams F))
      → SameTests s.ifl_params o
      → Holds (After (exp_value v) s) (elim o [
        | none ↦ ok (return_error s)
        | some p ↦ ok (go_on (record s { ifl_params = p }))
      ])
  Holds-params s v none same = tt
  Holds-params s v (some p) same = (refl, same)

  -- The rest of `param_line`, with the entry `t` or no entry.
  Holds-value :
      (s : Parse F) (p : Param) (r : Run (Bool × BenchmarkTest F))
      → Holds (After (test_param p) s) (
          r >>= λ (done, t).
          let s' = record s { new_test_entry = some t } in
          ok (if done then go_on s' else return_error s'))
  Holds-value s p (ok (true, t)) = (refl, refl)
  Holds-value s p (ok (false, t)) = tt
  Holds-value s p (fault f) = tt
  Holds-value s p out_of_fuel = tt

  Holds-entry :
      (s : Parse F) (p : Param) (r : Run (Unit {0})) (o : Option (BenchmarkTest F))
      (set : BenchmarkTest F → Run (Bool × BenchmarkTest F))
      → Holds (After (test_param p) s) (
          r >>= λ _. (elim o [ none ↦ fault bad_pointer | some t ↦ ok t ]) >>= λ t.
          set t >>= λ (done, t').
          let s' = record s { new_test_entry = some t' } in
          ok (if done then go_on s' else return_error s'))
  Holds-entry s p (ok u) none set = tt
  Holds-entry s p (ok u) (some t) set = Holds-value s p (set t)
  Holds-entry s p (fault f) o set = tt
  Holds-entry s p out_of_fuel o set = tt

  Balanced-step :
      (s s1 : Parse F) (k : LineKind) (ks : List LineKind) (r : Run (Bool × Parse F))
      → Leads k s s1
      → Holds (Balanced s1 ks) r
      → Holds (Balanced s (k ∷ ks)) r
  Balanced-step s s1 k ks (ok (true, s')) leads h = Balanced-cons s s1 s' k ks leads h
  Balanced-step s s1 k ks (ok (false, s')) leads h = tt
  Balanced-step s s1 k ks (fault f) leads h = tt
  Balanced-step s s1 k ks out_of_fuel leads h = tt

  Holds-next :
      (s : Parse F) (k : LineKind) (ks : List LineKind) (rest : Parse F → Run (Bool × Parse F))
      → ((s' : Parse F) → Holds (Balanced s' ks) (rest s'))
      → (next : Next F) → After k s next
      → Holds
          (Balanced s (k ∷ ks))
          (elim next [ go_on s' ↦ rest s' | return_error s' ↦ ok (false, s') ])
  Holds-next s k ks rest h (go_on s') after = Balanced-step s s' k ks (rest s') after (h s')
  Holds-next s k ks rest h (return_error s') after = tt

module _ {F : Type 0} ⦃d : Double F⦄ where
  tests-with_exp_value :
      (v : ExpVals) (p : InputParams F) (x : F)
      → length (with_exp_value v p x).tests ≡ length p.tests
  unfolding with_exp_value
  tests-with_exp_value srt_acceptable_percent p x = refl
  tests-with_exp_value srt_range_percent p x = refl
  tests-with_exp_value srt_multiplier p x = refl
  tests-with_exp_value hrt_acceptable_percent p x = refl
  tests-with_exp_value hrt_range_percent p x = refl
  tests-with_exp_value hrt_multiplier p x = refl
  tests-with_exp_value grt_acceptable_percent p x = refl
  tests-with_exp_value grt_range_percent p x = refl
  tests-with_exp_value grt_multiplier p x = refl

module _ {F : Type 0} ⦃d : Double F⦄ (atof : Bytes → F) where
  set_exp_values-tests :
      (p : InputParams F) (line : Bytes) (v : ExpVals) → SameTests p (set_exp_values atof p line v)
  unfolding set_exp_values
  set_exp_values-tests p line v = elim (Option-cases (strtok b'=' line)) [
    | inl e ↦ rw (SameTests, e) tt
    | inr ((key, rest), e) ↦ elim (Option-cases (strtok b'=' rest)) [
      | inl u ↦ rw (SameTests, e, u) tt
      | inr ((value, more), u) ↦ rw (SameTests, e, u) (tests-with_exp_value v p (atof value))
    ]
  ]

  After-param :
      (s : Parse F) (line : Bytes) (p : Param)
      → Holds (After (test_param p) s) (param_line atof s line p)
  unfolding param_line
  After-param s line p =
      Holds-entry s p (require assert_failed s.newtest) s.new_test_entry
        λ t. set_input_params atof t line p

  After-kind :
      (k : LineKind) (s : Parse F) (line : Bytes) → Holds (After k s) (parse_kind atof k s line)
  unfolding parse_kind insert_new_test_entry
  After-kind ignored s line = (refl, refl)
  After-kind open_test s line = elim (Bool-cases s.newtest) [
    | inl e ↦ rw e tt
    | inr e ↦ rw e (refl, refl, refl)
  ]
  After-kind close_test s line = elim (Bool-cases s.newtest) [
    | inl e ↦ elim (Option-cases s.new_test_entry) [
      | inl u ↦ rw (e, u) tt
      | inr (t, u) ↦ rw (e, u) (refl, refl, refl)
    ]
    | inr e ↦ rw e tt
  ]
  After-kind (test_param p) s line = After-param s line p
  After-kind (exp_value v) s line =
      Holds-params s v (set_exp_values atof s.ifl_params line v)
        (set_exp_values-tests s.ifl_params line v)
  After-kind unexpected s line = tt

  After-line :
      (s : Parse F) (line : Bytes) → Holds (After (kind_of line) s) (parse_line atof s line)
  unfolding parse_line
  After-line s [] = tt
  After-line s (c ∷ line) = After-kind (kind_of (c ∷ line)) s (chomp (c ∷ line))

  parse_lines-Balanced :
      (s : Parse F) (lines : List Bytes)
      → Holds (Balanced s (map kind_of lines)) (parse_lines atof s lines)
  unfolding parse_lines
  parse_lines-Balanced s [] = (refl, omega arith)
  parse_lines-Balanced s (line ∷ lines) =
      Holds-bind (After (kind_of line) s) (Balanced s (map kind_of (line ∷ lines)))
        (parse_line atof s line) _ (After-line s line)
        (Holds-next s (kind_of line) (map kind_of lines) (λ s'. parse_lines atof s' lines)
          λ s'. parse_lines-Balanced s' lines)

  -- A file that is accepted has its "test" and "/test" lines in turn, from the state before it on,
  -- and has added one test for every "/test".
  pub parse_lines-Alternates :
      (s s' : Parse F) (lines : List Bytes)
      → parse_lines atof s lines ≡ ok (true, s')
      → Alternates s.newtest (map kind_of lines) s'.newtest
        × (test_count s' ≡ test_count s + closed_tests (map kind_of lines))
  parse_lines-Alternates s s' lines h =
      subst (Holds (Balanced s (map kind_of lines))) h (parse_lines-Balanced s lines)
