-- ===== src/Result/Limits.antt =====
-- `check_pass_criteria`: whether enough times lie within the accepted range of the median.
use rtmb.Base.{
  faulted, returned, Fuelled-bind, Fuelled, ℕ, zero, suc, ◌+◌, ◌≡◌, refl, ◌||◌, not, Bool, true,
  false, List, [], ◌∷◌, ◌++◌, length, count, out_of_bounds, deadlock, Run, ok, fault, ◌>>=◌,
  Bool-cases, inl, inr, if◌then◌else◌,
}
use rtmb.Base.Int.{ℤ, pos, ◌-ℤ◌, leb_ℤ, success, error}
use rtmb.Double.{Double}
use rtmb.Params.{RtMode, InputParams, vals_of}
use rtmb.Result.{TestResults, lock_if}
use rtmb.Result.Std.{HasTimes}

-- Success where the conforming times reach the accepted number.
abbrev pub verdict : ℤ → ℕ → ℤ
verdict min_acceptable conforming_times =
    if leb_ℤ min_acceptable (pos conforming_times) then success else error

module _ {F : Type 0} ⦃d : Double F⦄ where
  -- The test of the loop: beyond one of the limits.
  abbrev pub outlying : F → F → ℤ → Bool
  outlying negative positive v = d.lt positive (d.of_int v) || d.lt (d.of_int v) negative

  -- `for (i = 0; i < num_entries; i++) if (…) non_conforming_iterations++`
  count_outlying : F → F → ℕ → List ℤ → Run ℕ
  count_outlying negative positive zero vs = ok 0
  count_outlying negative positive (suc n) [] = fault out_of_bounds
  count_outlying negative positive (suc n) (v ∷ vs) = do
    c ← count_outlying negative positive n vs
    ok ((if outlying negative positive v then 1 else 0) + c)

  abbrev hundred : F
  hundred = d.of_int (pos 100)

  abbrev positive_limit_of : ℤ → F → F
  positive_limit_of median range = d.mul (d.div (d.of_int median) hundred) (d.add hundred range)

  abbrev negative_limit_of : ℤ → F → F
  negative_limit_of median range = d.mul (d.div (d.of_int median) hundred) (d.sub hundred range)

  -- `(num_entries / 100.0) * acceptable_percentage`, cast to an integer.
  abbrev min_acceptable_of : ℕ → F → ℤ
  min_acceptable_of n percentage = d.to_int (d.mul (d.div (d.of_int (pos n)) hundred) percentage)

  -- The second `if (synch == 1)` takes the lock again where it should give it back.
  pub check_pass_criteria : TestResults F → RtMode → InputParams F → Bool → Run (ℤ × TestResults F)
  unfolding count_outlying
  check_pass_criteria r mode params synch = do
    r ← lock_if synch r
    let vals = vals_of mode params
    let min_acceptable = min_acceptable_of r.num_entries vals.acceptable_percentage
    let positive = positive_limit_of r.mediantime vals.range_percentage
    let negative = negative_limit_of r.mediantime vals.range_percentage
    non_conforming ← count_outlying negative positive r.num_entries r.values
    let test_pass =
        if leb_ℤ min_acceptable (pos r.num_entries -ℤ pos non_conforming) then success else error
    r ← lock_if synch (record r {
      non_conforming_iterations = pos non_conforming;
      positive_limit = positive;
      negative_limit = negative;
      min_acceptable_iterations = min_acceptable;
    })
    ok (test_pass, r)

  count_outlying-Fuelled :
      (negative positive : F) (n : ℕ) (vs : List ℤ)
      → Fuelled (count_outlying negative positive n vs)
  unfolding count_outlying
  count_outlying-Fuelled negative positive zero vs = returned 0
  count_outlying-Fuelled negative positive (suc n) [] = faulted out_of_bounds
  count_outlying-Fuelled negative positive (suc n) (v ∷ vs) =
      Fuelled-bind (count_outlying-Fuelled negative positive n vs) λ c. returned _

  pub check_pass_criteria-Fuelled :
      (r : TestResults F) (mode : RtMode) (params : InputParams F)
      → Fuelled (check_pass_criteria r mode params false)
  unfolding check_pass_criteria
  check_pass_criteria-Fuelled r mode params =
      Fuelled-bind (count_outlying-Fuelled _ _ r.num_entries r.values) λ c. returned _

  abbrev pub conforming : F → F → ℤ → Bool
  conforming negative positive v = not (outlying negative positive v)

  count_outlying-count :
      (negative positive : F) (ts rest : List ℤ)
      → count_outlying negative positive (length ts) (ts ++ rest)
        ≡ ok (count (outlying negative positive) ts)
  unfolding count_outlying
  count_outlying-count negative positive [] rest = refl
  count_outlying-count negative positive (t ∷ ts) rest =
      rw (count_outlying-count negative positive ts rest)

  -- The two limits of the times `ts`, for the mode of the run.
  abbrev pub limits_of : TestResults F → RtMode → InputParams F → F × F
  limits_of r mode params =
      let range = (vals_of mode params).range_percentage in
      (negative_limit_of r.mediantime range, positive_limit_of r.mediantime range)

  -- The outcome of `check_pass_criteria` on the times `ts`.
  abbrev pub checked_result : TestResults F → RtMode → InputParams F → List ℤ → ℤ × TestResults F
  checked_result r mode params ts =
      let (negative, positive) = limits_of r mode params in
      let min_acceptable =
        min_acceptable_of (length ts) (vals_of mode params).acceptable_percentage in
      (
        verdict min_acceptable (count (conforming negative positive) ts),
        record r {
          non_conforming_iterations = pos (count (outlying negative positive) ts);
          positive_limit = positive;
          negative_limit = negative;
          min_acceptable_iterations = min_acceptable;
        },
      )

  counted :
      (r : TestResults F) (ts rest : List ℤ) (mode : RtMode) (params : InputParams F)
      → HasTimes r ts rest
      → let (negative, positive) = limits_of r mode params in
        count_outlying negative positive r.num_entries r.values
        ≡ ok (count (outlying negative positive) ts)
  counted r ts rest mode params is = rw (is.used, is.array) (count_outlying-count _ _ ts rest)

  -- With `synch`, `check_pass_criteria` never returns: it takes its own lock a second time.
  pub check_pass_criteria-deadlock :
      (r : TestResults F) (ts rest : List ℤ) (mode : RtMode) (params : InputParams F)
      → HasTimes r ts rest
      → check_pass_criteria r mode params true ≡ fault deadlock
  unfolding check_pass_criteria
  check_pass_criteria-deadlock r ts rest mode params is = elim (Bool-cases r.locked) [
    | inl held ↦ rw held
    | inr free ↦ rw (free, counted r ts rest mode params is)
  ]
