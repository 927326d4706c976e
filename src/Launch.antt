-- ===== src/Launch.antt =====
-- rtmb_c/src/harness/RTMB_launch_tests.c: which tests run, in which order and how often. The shared
-- object of a test is a parameter: `none` where it cannot be opened or lacks the function, and else
-- what its thread does to the state `W` that all tests share, with `false` where the thread cannot
-- be started or joined or the test reports an error. A test does not change the list of tests.
pub mod Order
mod Examples
use rtmb.Base.{
  ◌&&◌, not, Bool, true, false, ◌||◌, List, [], ◌∷◌, ◌++◌, Option, none, some, if◌then◌else◌,
}
use rtmb.Base.Int.{ℤ, pos, success, error, leb_ℤ}
use rtmb.Double.{Double}
use rtmb.CString.{equal}
use rtmb.Params.{Bytes, BenchmarkTest, InputParams, CmdLineArgs, vals_of}

module _ {F : Type 0} where
  -- `_config_test == 1`
  abbrev pub is_config : BenchmarkTest F → Bool
  is_config t = leb_ℤ t.config_test (pos 1) && leb_ℤ (pos 1) t.config_test

  -- `strcmp(name, j->_name) == 0`
  abbrev pub is_named : Bytes → BenchmarkTest F → Bool
  is_named name t = equal name t.name

  abbrev pub any_named : Bytes → List (BenchmarkTest F) → Bool
  any_named name [] = false
  any_named name (t ∷ ts) = is_named name t || any_named name ts

module _ {F : Type 0} ⦃d : Double F⦄ where
  -- The structure keeps the new number.
  unfoldable pub get_iters : InputParams F → CmdLineArgs → BenchmarkTest F → BenchmarkTest F
  get_iters params args t = if args.quick then record t { iterations = pos 1 } else record t {
    iterations = d.to_int (d.mul (d.of_int t.iterations) (vals_of args.rt_mode params).multiplier);
  }

  module _ {W : Type 0} (open_test : Bytes → Option (BenchmarkTest F → W → Bool × W))
      (params : InputParams F) (args : CmdLineArgs) where
    -- The result, the test as it is then, and the shared state.
    unfoldable pub run_test : BenchmarkTest F → W → ℤ × BenchmarkTest F × W
    run_test t w = elim (open_test t.name) [
      | none ↦ (error, t, w)
      | some test ↦
          let t' = get_iters params args t in
          let (done, w') = test t' w in (if done then success else error, t', w')
    ]

    -- A loop over the list that runs the chosen tests; `rc` is the result of the last one.
    unfoldable pub run_tests :
        (BenchmarkTest F → Bool) → ℤ → List (BenchmarkTest F) → W → ℤ × List (BenchmarkTest F) × W
    run_tests chosen rc [] w = (rc, [], w)
    run_tests chosen rc (t ∷ ts) w =
        let ran = run_test t w in
        let after_run = run_tests chosen ran.0 ts ran.2 in
        let skipped = run_tests chosen rc ts w in
        if chosen t
        then (after_run.0, ran.1 ∷ after_run.1, after_run.2)
        else (skipped.0, t ∷ skipped.1, skipped.2)

    -- The loop over the names that the user gave.
    unfoldable pub run_named :
        List Bytes → ℤ → List (BenchmarkTest F) → W → ℤ × List (BenchmarkTest F) × W
    run_named [] rc ts w = (rc, ts, w)
    run_named (name ∷ names) rc ts w =
        let (rc', ts', w') = run_tests (is_named name) rc ts w in
        run_named names (if any_named name ts then rc' else error) ts' w'

    -- The micro-benchmarks: those the user named, or all.
    unfoldable pub run_micro :
        List Bytes → List (BenchmarkTest F) → W → ℤ × List (BenchmarkTest F) × W
    run_micro [] ts w = run_tests (λ t. not (is_config t)) success ts w
    run_micro (name ∷ names) ts w = run_named (name ∷ names) success ts w

    -- The results of the configuration tests are not looked at.
    unfoldable pub launch_tests : List (BenchmarkTest F) → W → ℤ × List (BenchmarkTest F) × W
    launch_tests ts w =
        let (_, ts', w') = run_tests is_config success ts w in run_micro args.test_list ts' w'
