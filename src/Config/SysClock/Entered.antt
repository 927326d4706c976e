-- ===== src/Config/SysClock/Entered.antt =====
-- What `clock_config` enters, and what the later tests read from it.
use rtmb.Table.Entries.{ReadsClock, HoldsOne, IsEntered}
use rtmb.Result.Extremes.{AreExtremes}
use rtmb.Table.{add_result_to_result_table2, sysclock_config, ResultTable}
use rtmb.Result.Limits.{checked_result}
use rtmb.Result.Finish.{Summary}
use rtmb.Config.Readings.{Readings}
use rtmb.Result.{TestResults}
use rtmb.Config.SysClock.{clock_amount}
use rtmb.Params.{BenchmarkTest, InputParams, RtMode}
use rtmb.Clock.{Clock}
use rtmb.Result.Sorted.{Rearranges}
use rtmb.Base.{ok, ◌>>=◌, Run, ◌≡◌, ℕ, List}
use rtmb.Base.Int.{success, pos, ℤ}
use rtmb.Double.{Double}

module _ {F : Type 0} ⦃d : Double F⦄ (qsort : (ℤ → ℤ → ℤ) → List ℤ → List ℤ) (q : Rearranges qsort)
    (b : ℕ) (clock : Clock) (mode : RtMode) (params : InputParams F) where
  -- What the check against the criteria leaves, with the amount of work that `clock_config` sets.
  abbrev entered : TestResults F → List ℤ → TestResults F
  entered r ts = record ((checked_result r mode params ts).1) { opern_amount = clock_amount }

  -- The result that a run of the test enters, by the times `ts` that it measured.
  pub record IsClockEntry (ts : List ℤ) (r : TestResults F) : Type 0 where
    pub statistics : Summary r ts
    pub extremes : AreExtremes r.mintime r.maxtime ts
    pub amount : r.opern_amount ≡ pos 100

  -- The test succeeded, and the later tests read the statistics of the times `ts`.
  pub record IsConfigured (table : ResultTable F) (test : BenchmarkTest F) (ts : List ℤ)
      (outcome : ℤ × ResultTable F) : Type 0 where
    pub succeeded : outcome.0 ≡ success
    pub r : TestResults F
    pub entry : IsClockEntry ts r
    pub changed : IsEntered (HoldsOne r) table sysclock_config test (outcome.1)
    pub reads : ReadsClock r (outcome.1)

  -- The last two statements of `clock_config`.
  abbrev entering : ResultTable F → BenchmarkTest F → TestResults F → Run (ℤ × ResultTable F)
  entering table test r =
      add_result_to_result_table2 table (record r { opern_amount = clock_amount }) sysclock_config
        test
      >>= λ table'. ok (success, table')
