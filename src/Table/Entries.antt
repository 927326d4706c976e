-- ===== src/Table/Entries.antt =====
-- The entries of the result table: what a test enters is what a later test reads.
use rtmb.Base.{
  ℕ, ◌<◌, ◌≡◌, ◌≢◌, refl, true, List, [], ◌∷◌, some, get_elem?, length, lt→ltb, length-set,
  get_elem?-set_self, get_elem?-set_ne, ok, Returns, returns, Returns-bind, Returns-map,
}
use rtmb.Base.Int.{ℤ, pos, ◌*ℤ◌}
use rtmb.Double.{Double}
use rtmb.Long.{Within, long_bound, mul_long, mul_long-ok}
use rtmb.Params.{BenchmarkTest}
use rtmb.Result.{TestResults}
use rtmb.Result.Std.{HasTimes}
use rtmb.Score.{
  TestScore, FinalBmTestResult, number, scale, create_final_bm_test_result1,
  compute_bm_test_result_scores, overall_scores,
}
use rtmb.Score.Combined.{AreScores, scored, generate_combined_score-AreScores}
use rtmb.Table.{
  ResultTable, slot_at, sysclock_config, systimer_config, enter, config_result,
  get_ideal_sleep_time, get_ideal_work_time, get_clock_accuracy, get_ideal_work_quantum,
  get_min_exec_time, add_result_to_result_table1, add_result_to_result_table2,
}

-- `table'` has the entry of `test` in `bucket`, with scores that meet `P`, and is `table` elsewhere.
pub record IsEntered {F : Type 0} (P : FinalBmTestResult F → Type 0) (table : ResultTable F)
    (bucket : ℕ) (test : BenchmarkTest F) (table' : ResultTable F) : Type 0 where
  pub f : FinalBmTestResult F
  pub meets : P f
  pub slot :
      get_elem? table' bucket ≡ some (record { fbmt = some f; bm_test = some test; valid = true })
  pub others : (j : ℕ) → j ≢ bucket → get_elem? table' j ≡ get_elem? table j
  pub same_length : length table' ≡ length table

module _ {F : Type 0} where
  enter-IsEntered :
      (P : FinalBmTestResult F → Type 0) (table : ResultTable F) (bucket : ℕ)
      (f : FinalBmTestResult F) (test : BenchmarkTest F)
      → bucket < length table
      → P f
      → Returns (IsEntered P table bucket test) (enter table bucket f test)
  unfolding enter
  enter-IsEntered P table bucket f test h meets = rw (lt→ltb bucket (length table) h) (
      returns (record {
        f = f;
        meets = meets;
        slot = get_elem?-set_self table bucket _ h;
        others = λ j ne. get_elem?-set_ne table bucket j _ ne;
        same_length = length-set table bucket _;
      }))

  -- The only result of the only score.
  abbrev pub HoldsOne : TestResults F → FinalBmTestResult F → Type 0
  HoldsOne r f = (s : TestScore F) × (f.score ≡ s ∷ []) × (s.result ≡ r ∷ [])

  pub config_result-IsEntered :
      (table table' : ResultTable F) (bucket : ℕ) (test : BenchmarkTest F) (r : TestResults F)
      → IsEntered (HoldsOne r) table bucket test table'
      → config_result table' bucket ≡ ok r
  unfolding config_result
  config_result-IsEntered table table' bucket test r e =
      let (s, one, result) = e.meets in rw (config_result, slot_at, e.slot, one, result) refl

module _ {F : Type 0} ⦃d : Double F⦄ where
  add_result_to_result_table1-HoldsOne :
      (table : ResultTable F) (r : TestResults F) (bucket : ℕ) (test : BenchmarkTest F)
      → bucket < length table
      → Returns
          (IsEntered (HoldsOne r) table bucket test)
          (add_result_to_result_table1 table r bucket test)
  unfolding add_result_to_result_table1
  add_result_to_result_table1-HoldsOne table r bucket test h =
      enter-IsEntered (HoldsOne r) table bucket _ test h (_, refl, refl)

  -- What the later tests read from the entry of the clock test.
  pub record ReadsClock (r : TestResults F) (table : ResultTable F) : Type 0 where
    pub accuracy : get_clock_accuracy table ≡ ok r.meantime
    pub quantum : get_ideal_work_quantum table ≡ ok r.opern_amount
    pub work_time : get_ideal_work_time table ≡ ok (r.mintime, r.maxtime, pos 20 *ℤ r.mediantime)
    pub exec_time : get_min_exec_time table ≡ ok (d.of_int (pos 20 *ℤ r.mediantime))

  pub ReadsClock-IsEntered :
      (table table' : ResultTable F) (test : BenchmarkTest F) (r : TestResults F)
      → mul_long (pos 20) r.mediantime ≡ ok (pos 20 *ℤ r.mediantime)
      → IsEntered (HoldsOne r) table sysclock_config test table'
      → ReadsClock r table'
  unfolding get_clock_accuracy get_ideal_work_quantum get_ideal_work_time get_min_exec_time
  ReadsClock-IsEntered table table' test r fits e =
      let read = config_result-IsEntered table table' sysclock_config test r e in
      let (s, one, result) = e.meets in
      record {
        accuracy = rw read refl;
        quantum = rw read refl;
        work_time = rw (read, fits) refl;
        exec_time = rw (get_min_exec_time, slot_at, e.slot, one, result, fits) refl;
      }

  -- Entered for the clock test, with a median that is at most a twentieth of a 64-bit number, a
  -- result is what the later tests read: its mean as the accuracy of the clock, its amount of work
  -- as the quantum, its extremes, and twenty times its median as the ideal and the least time.
  pub add_result_to_result_table1-ReadsClock :
      (table : ResultTable F) (r : TestResults F) (test : BenchmarkTest F) (b : ℕ)
      → sysclock_config < length table
      → Within b (pos 20 *ℤ r.mediantime)
      → b < long_bound
      → Returns (ReadsClock r) (add_result_to_result_table1 table r sysclock_config test)
  add_result_to_result_table1-ReadsClock table r test b h within small =
      Returns-map (add_result_to_result_table1-HoldsOne table r sysclock_config test h) λ table' e.
        ReadsClock-IsEntered table table' test r (mul_long-ok b small (pos 20) r.mediantime within)
          e

  -- Entered for the timer test, a result gives the later tests its amount of work as the time to
  -- sleep.
  pub get_ideal_sleep_time-add_result_to_result_table1 :
      (table : ResultTable F) (r : TestResults F) (test : BenchmarkTest F)
      → systimer_config < length table
      → Returns
          (λ table'. get_ideal_sleep_time table' ≡ ok r.opern_amount)
          (add_result_to_result_table1 table r systimer_config test)
  unfolding get_ideal_sleep_time
  get_ideal_sleep_time-add_result_to_result_table1 table r test h =
      Returns-map (add_result_to_result_table1-HoldsOne table r systimer_config test h)
        λ table' e. rw (config_result-IsEntered table table' systimer_config test r e) refl

  -- The scores of a test with one result: those of that result, and a pass.
  pub record IsOverall (r : TestResults F) (ts : List ℤ) (reference start : F)
      (f : FinalBmTestResult F) : Type 0 where
    pub s : TestScore F
    pub only : f.score ≡ s ∷ []
    pub scores : AreScores (r ∷ []) ts reference start (s ∷ [])
    pub throughput : f.throughput_test_score ≡ s.throughput_score
    pub consistency : f.consistency_test_score ≡ s.consistency_score
    pub total :
        f.test_score
        ≡ d.pow (d.mul s.consistency_score s.throughput_score) (d.div (number 1) (number 2))
    pub passed : f.test_pass ≡ true

  IsOverall-AreScores :
      (r : TestResults F) (ts : List ℤ) (reference start : F) (scores : List (TestScore F))
      → AreScores (r ∷ []) ts reference start scores
      → IsOverall r ts reference start
          (record (create_final_bm_test_result1 scores) { test_pass = true })
  unfolding create_final_bm_test_result1 compute_bm_test_result_scores overall_scores
  IsOverall-AreScores r ts reference start [] x = elim x [ ]
  IsOverall-AreScores r ts reference start (s ∷ s' ∷ ss) x = elim x [ ]
  IsOverall-AreScores r ts reference start (s ∷ []) (scored m p) = record {
    s = s;
    only = refl;
    scores = scored m p;
    throughput = refl;
    consistency = refl;
    total = refl;
    passed = refl;
  }

  AreScores-result :
      (r : TestResults F) (ts : List ℤ) (reference start : F) (s : TestScore F)
      → AreScores (r ∷ []) ts reference start (s ∷ [])
      → s.result ≡ r ∷ []
  AreScores-result r ts reference start s (scored m p) = p.result

  -- An entry with the scores of one result holds that result.
  pub IsEntered-HoldsOne :
      (r : TestResults F) (ts : List ℤ) (reference start : F) (table table' : ResultTable F)
      (bucket : ℕ) (test : BenchmarkTest F)
      → IsEntered (IsOverall r ts reference start) table bucket test table'
      → IsEntered (HoldsOne r) table bucket test table'
  IsEntered-HoldsOne r ts reference start table table' bucket test e = record {
    f = e.f;
    meets =
        (e.meets.s, e.meets.only, AreScores-result r ts reference start e.meets.s e.meets.scores);
    slot = e.slot;
    others = e.others;
    same_length = e.same_length;
  }

  -- For a result that holds at least one time and a test with a positive reference score,
  -- `add_result_to_result_table2` returns: the slot of the test is valid and holds one score, whose
  -- throughput and consistency are those of the test, the test counts as passed, and every other
  -- slot is as it was.
  pub add_result_to_result_table2-IsEntered :
      (table : ResultTable F) (r : TestResults F) (bucket : ℕ) (test : BenchmarkTest F) (t : ℤ)
      (ts rest : List ℤ)
      → HasTimes r (t ∷ ts) rest
      → d.lt (number 0) test.reference_score ≡ true
      → bucket < length table
      → Returns
          (IsEntered
            (IsOverall r
              (t ∷ ts)
              test.reference_score
              (d.div (d.mul scale (number 1)) (d.of_int t)))
            table
            bucket
            test)
          (add_result_to_result_table2 table r bucket test)
  unfolding add_result_to_result_table2
  add_result_to_result_table2-IsEntered table r bucket test t ts rest times positive h =
      Returns-bind
        (generate_combined_score-AreScores r [] (t ∷ ts) rest r t test.reference_score times refl
          (rw times.array refl) positive)
        λ scores are.
          enter-IsEntered _ table bucket _ test h
            (IsOverall-AreScores r (t ∷ ts) test.reference_score _ scores are)
