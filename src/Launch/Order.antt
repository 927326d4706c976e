-- ===== src/Launch/Order.antt =====
-- The order in which `launch_tests` runs the tests, and whose result it returns.
use mathlib.Core.List.{append_assoc, append-nil}
use rtmb.Base.{
  not, Bool, true, false, Bool-cases, inl, inr, ◌≡◌, ◌∙◌, sym, ap, refl, List, [], ◌∷◌, ◌++◌,
  Option, some, if◌then◌else◌,
}
use rtmb.Base.Int.{ℤ, success}
use rtmb.Double.{Double}
use rtmb.Params.{Bytes, BenchmarkTest, InputParams, CmdLineArgs}
use rtmb.Launch.{is_config, get_iters, run_test, run_tests, run_micro, launch_tests}

module _ {F : Type 0} ⦃d : Double F⦄ where
  -- A quick run makes one round of every test, and a test keeps its name and kind in any run.
  get_iters-is_config :
      (params : InputParams F) (args : CmdLineArgs) (t : BenchmarkTest F)
      → is_config (get_iters params args t) ≡ is_config t
  unfolding get_iters
  get_iters-is_config params args t = elim (Bool-cases args.quick) [
    | inl e ↦ rw (get_iters, e) refl
    | inr e ↦ rw (get_iters, e) refl
  ]

  get_iters-name :
      (params : InputParams F) (args : CmdLineArgs) (t : BenchmarkTest F)
      → (get_iters params args t).name ≡ t.name
  unfolding get_iters
  get_iters-name params args t = elim (Bool-cases args.quick) [
    | inl e ↦ rw (get_iters, e) refl
    | inr e ↦ rw (get_iters, e) refl
  ]

  -- A loop that goes through a list and then one more test that it runs.
  module _ {W : Type 0} (open_test : Bytes → Option (BenchmarkTest F → W → Bool × W))
      (params : InputParams F) (args : CmdLineArgs) where
    run_tests-snoc :
        (chosen : BenchmarkTest F → Bool) (ts : List (BenchmarkTest F)) (rc : ℤ)
        (t : BenchmarkTest F) (w : W)
        → chosen t ≡ true
        → (run_tests open_test params args chosen rc (ts ++ t ∷ []) w).0
          ≡ (run_test open_test params args t
              ((run_tests open_test params args chosen rc ts w).2)).0
    unfolding run_tests
    run_tests-snoc chosen [] rc t w h = rw h refl
    run_tests-snoc chosen (s ∷ ts) rc t w h = elim (Bool-cases (chosen s)) [
      | inl e ↦ rw e (
          run_tests-snoc chosen ts ((run_test open_test params args s w).0) t
            ((run_test open_test params args s w).2) h)
      | inr e ↦ rw e (run_tests-snoc chosen ts rc t w h)
    ]

    run_tests-skip :
        (chosen : BenchmarkTest F → Bool) (ts : List (BenchmarkTest F)) (rc : ℤ)
        (t : BenchmarkTest F) (w : W)
        → chosen t ≡ false
        → run_tests open_test params args chosen rc (ts ++ t ∷ []) w ≡ (
            let (rc', ts', w') = run_tests open_test params args chosen rc ts w in
            (rc', ts' ++ t ∷ [], w'))
    unfolding run_tests
    run_tests-skip chosen [] rc t w h = rw h refl
    run_tests-skip chosen (s ∷ ts) rc t w h = elim (Bool-cases (chosen s)) [
      | inl e ↦
          rw
            (
              e,
              run_tests-skip chosen ts ((run_test open_test params args s w).0) t
                  ((run_test open_test params args s w).2) h,
            )
            refl
      | inr e ↦ rw (e, run_tests-skip chosen ts rc t w h) refl
    ]

    -- The state in which the last test starts, for tests `ts` in front of it.
    abbrev pub before_last : List (BenchmarkTest F) → W → W
    before_last ts w =
        let (_, ts', w') = run_tests open_test params args is_config success ts w in
        (run_tests open_test params args (λ t. not (is_config t)) success ts' w').2

    launch_tests-all :
        (ts : List (BenchmarkTest F)) (w : W)
        → args.test_list ≡ []
        → launch_tests open_test params args ts w ≡ (
            let (_, ts', w') = run_tests open_test params args is_config success ts w in
            run_tests open_test params args (λ t. not (is_config t)) success ts' w')
    unfolding launch_tests run_micro
    launch_tests-all ts w none_named =
        let ran = run_tests open_test params args is_config success ts w in
        ap (λ names. run_micro open_test params args names ran.1 ran.2) none_named

    -- Without names from the user, the result of `launch_tests` is the result of the last
    -- micro-benchmark alone, whatever the tests before it returned.
    pub launch_tests-last :
        (ts : List (BenchmarkTest F)) (t : BenchmarkTest F) (w : W)
        → args.test_list ≡ []
        → is_config t ≡ false
        → (launch_tests open_test params args (ts ++ t ∷ []) w).0
          ≡ (run_test open_test params args t (before_last ts w)).0
    launch_tests-last ts t w none_named micro =
        rw
          (
            launch_tests-all (ts ++ t ∷ []) w none_named,
            run_tests-skip is_config ts success t w micro,
          )
          (run_tests-snoc (λ t. not (is_config t)) _ success t _ (ap not micro))

  -- Tests that write their name into the shared state, with any results.
  abbrev pub logged :
      (BenchmarkTest F → Bool) → Bytes → Option (BenchmarkTest F → List Bytes → Bool × List Bytes)
  logged answer name = some λ t log. (answer t, log ++ t.name ∷ [])

  abbrev pub names_of : (BenchmarkTest F → Bool) → List (BenchmarkTest F) → List Bytes
  names_of chosen [] = []
  names_of chosen (t ∷ ts) = if chosen t then t.name ∷ names_of chosen ts else names_of chosen ts

  module _ (answer : BenchmarkTest F → Bool) (params : InputParams F) (args : CmdLineArgs) where
    run_tests-names_of :
        (chosen : BenchmarkTest F → Bool) (ts : List (BenchmarkTest F)) (rc : ℤ) (log : List Bytes)
        → (run_tests (logged answer) params args chosen rc ts log).2 ≡ log ++ names_of chosen ts
    unfolding run_tests run_test
    run_tests-names_of chosen [] rc log = sym (append-nil log)
    run_tests-names_of chosen (t ∷ ts) rc log = elim (Bool-cases (chosen t)) [
      | inl e ↦
          rw (e, get_iters-name params args t)
            (run_tests-names_of chosen ts _ (log ++ t.name ∷ [])
              ∙ append_assoc log (t.name ∷ []) (names_of chosen ts))
      | inr e ↦ rw e (run_tests-names_of chosen ts rc log)
    ]

    names_of-kept :
        (chosen kept : BenchmarkTest F → Bool) (ts : List (BenchmarkTest F)) (rc : ℤ)
        (log : List Bytes)
        → ((t : BenchmarkTest F) → kept (get_iters params args t) ≡ kept t)
        → names_of kept ((run_tests (logged answer) params args chosen rc ts log).1)
          ≡ names_of kept ts
    unfolding run_tests run_test
    names_of-kept chosen kept [] rc log h = refl
    names_of-kept chosen kept (t ∷ ts) rc log h = elim (Bool-cases (chosen t)) [
      | inl e ↦
          rw
            (
              e,
              h t,
              get_iters-name params args t,
              names_of-kept chosen kept ts _ (log ++ t.name ∷ []) h,
            )
            refl
      | inr e ↦ rw (e, names_of-kept chosen kept ts rc log h) refl
    ]

    -- Without names from the user, `launch_tests` runs every test once: first the configuration
    -- tests and then the others, each in the order of the list.
    pub launch_tests-names_of :
        (ts : List (BenchmarkTest F)) (log : List Bytes)
        → args.test_list ≡ []
        → (launch_tests (logged answer) params args ts log).2
          ≡ (log ++ names_of is_config ts) ++ names_of (λ t. not (is_config t)) ts
    launch_tests-names_of ts log none_named =
        ap (λ r. r.2) (launch_tests-all (logged answer) params args ts log none_named)
        ∙ run_tests-names_of (λ t. not (is_config t)) _ success _
        ∙ rw
            (
              run_tests-names_of is_config ts success log,
              names_of-kept is_config (λ t. not (is_config t)) ts success log
                  (λ t. ap not (get_iters-is_config params args t)),
            )
            refl
