-- ===== src/Config/Rates/Fuelled.antt =====
-- The fuel of the three tests that time a piece of work is enough, whatever the clock shows.
use rtmb.Table.{sysclock_config, get_min_exec_time, ResultTable}
use rtmb.Clock.{Clock, TimeSpec}
use rtmb.Params.{BenchmarkTest, RtMode, InputParams}
use rtmb.Result.{Bytes, TestResults}
use rtmb.Config.Retry.{judge-Fuelled, double_int-Grown, retry-Fuelled}
use rtmb.Result.Create.{create_test_result-Fuelled}
use rtmb.Clock.Fuelled.{get_time_diff-Fuelled}
use rtmb.Result.Fuelled.{
  add_entry-Fuelled, sub_long-Fuelled, checked-Fuelled, mul_long-Fuelled, add_long-Fuelled,
}
use rtmb.Config.{timed_loop, retry_fuel, judge, double_int, int_bound, add_difference}
use rtmb.Work.{
  do_array_opern, do_simple_int_opern, page_step, write, quot_long, int_rounds, int_opern,
  array_rounds,
}
use rtmb.Double.{Double}
use rtmb.Config.Rates.{measure_rate, int_work, array_work}
use rtmb.Base.Int.{pos_part, ◌-ℤ◌, quot, ℤ, negsuc, pos}
use rtmb.Base.{
  assert_failed, ◌/◌, Option-Fuelled, arith, get_elem?, bad_pointer, ◌≤◌, ◌<◌, ◌-◌, out_of_bounds,
  ◌==◌, ◌+◌, ok, length, ◌%◌, ltb, Bool, div_by_zero, Run, Fuelled-if, returned, faulted, Option,
  Fuelled-bind, Fuelled, ℕ, List, false, some, none, suc, zero,
}

quot_long-Fuelled : (a b : ℤ) → Fuelled (quot_long a b)
unfolding quot_long
quot_long-Fuelled a (pos zero) = faulted div_by_zero
quot_long-Fuelled a (pos (suc n)) = checked-Fuelled (quot a (suc n))
quot_long-Fuelled a (negsuc n) = checked-Fuelled (pos 0 -ℤ quot a (suc n))

int_opern-Fuelled : (i j : ℤ) → Fuelled (int_opern i j)
unfolding int_opern
int_opern-Fuelled i j = Fuelled-bind (mul_long-Fuelled j i) λ p.
    Fuelled-bind (add_long-Fuelled j i)
      λ s. Fuelled-bind (sub_long-Fuelled p s) λ x. quot_long-Fuelled x j

int_rounds-Fuelled : (n : ℕ) (i j res : ℤ) → Fuelled (int_rounds n i j res)
unfolding int_rounds
int_rounds-Fuelled zero i j res = returned res
int_rounds-Fuelled (suc n) i j res = Fuelled-bind (int_opern-Fuelled i j) λ res.
    Fuelled-bind (add_long-Fuelled i (pos 1))
      λ i. Fuelled-bind (sub_long-Fuelled j i) λ j. int_rounds-Fuelled n i j res

pub int_work-Fuelled : (num : ℕ) → Fuelled (int_work num)
unfolding int_work do_simple_int_opern
int_work-Fuelled num =
    Fuelled-bind
      (Fuelled-bind (int_rounds-Fuelled (num - 2) (pos 2) (pos 10000) (pos 0)) λ r. returned _)
      λ r. returned _

write-Fuelled : (m : List ℕ) (j c : ℕ) → Fuelled (write m j c)
write-Fuelled m j c = Fuelled-if (ltb j (length m)) _ _ (returned _) (faulted out_of_bounds)

array_rounds-Fuelled : (n i j end : ℕ) (m : List ℕ) → Fuelled (array_rounds n i j end m)
unfolding array_rounds
array_rounds-Fuelled zero i j end m = returned m
array_rounds-Fuelled (suc n) i j end m =
    Fuelled-bind
      (Fuelled-if (i % 2 == 0) _ _ (write-Fuelled m j 97) (write-Fuelled m (end - i - 1) 98))
      (array_rounds-Fuelled n (i + 1) (j + page_step) end)

pub array_work-Fuelled : (num : ℕ) → Fuelled (array_work num)
unfolding array_work do_array_opern
array_work-Fuelled num =
    Fuelled-bind (Fuelled-bind (array_rounds-Fuelled (num / page_step) 0 0 _ _) λ m. returned _)
      λ r. returned _

module _ {F : Type 0} ⦃d : Double F⦄ where
  module _ (qsort : (ℤ → ℤ → ℤ) → List ℤ → List ℤ) (clock : Clock) where
    pub add_difference-Fuelled :
        (s e : TimeSpec) (r : TestResults F) → Fuelled (add_difference qsort s e r)
    unfolding add_difference
    add_difference-Fuelled s e r =
        Fuelled-bind (get_time_diff-Fuelled s e) λ t. add_entry-Fuelled qsort r t false

    ended_case :
        (o : Option TimeSpec) (k : TimeSpec → Run (Option (TestResults F × ℕ)))
        → ((e : TimeSpec) → Fuelled (k e))
        → Fuelled (elim o [ none ↦ ok none | some e ↦ k e ])
    ended_case none k h = returned none
    ended_case (some e) k h = h e

    timed_loop-Fuelled :
        (work : ℕ → Run Bool)
        → ((num : ℕ) → Fuelled (work num))
        → (iters num n : ℕ) (r : TestResults F)
        → Fuelled (timed_loop qsort clock work iters num n r)
    unfolding timed_loop
    timed_loop-Fuelled work w zero num n r = returned _
    timed_loop-Fuelled work w (suc iters) num n r = ended_case (clock n) _ λ s.
        Fuelled-bind (w num) λ failed. Fuelled-if failed _ _ (returned none) (
          ended_case (clock (n + 1)) _ λ e.
            Fuelled-bind (add_difference-Fuelled s e r)
              λ r. timed_loop-Fuelled work w iters num (n + 2) r)

    pub get_min_exec_time-Fuelled : (table : ResultTable F) → Fuelled (get_min_exec_time table)
    unfolding get_min_exec_time
    get_min_exec_time-Fuelled table =
        Fuelled-bind (Option-Fuelled out_of_bounds (get_elem? table sysclock_config)) λ slot.
          Fuelled-bind (Option-Fuelled bad_pointer slot.fbmt) λ f.
            Fuelled-bind (Option-Fuelled assert_failed (get_elem? f.score 0)) λ score.
              Fuelled-bind (Option-Fuelled assert_failed (get_elem? score.result 0))
                λ r. Fuelled-bind (mul_long-Fuelled (pos 20) r.mediantime) λ t. returned _

    -- The measuring part of the three tests does not run out of fuel, for every clock, every
    -- result table and every work that does not: with an amount of at least one that is an `int`, the
    -- 32 rounds of the loop are enough, since the amount doubles until it overflows, a fault.
    pub measure_rate-Fuelled :
        (mode : RtMode) (params : InputParams F) (work : ℕ → Run Bool) (num : ℕ) (desc : Bytes)
        (table : ResultTable F) (test : BenchmarkTest F) (n : ℕ)
        → ((num : ℕ) → Fuelled (work num))
        → num < int_bound
        → 1 ≤ num
        → Fuelled (measure_rate qsort clock mode params work num desc table test n)
    unfolding measure_rate
    measure_rate-Fuelled mode params work num desc table test n w h k =
        Fuelled-bind (get_min_exec_time-Fuelled table) λ clk.
          Fuelled-bind (create_test_result-Fuelled 1 test.iterations) λ rs.
            Fuelled-bind (Option-Fuelled bad_pointer (get_elem? rs 0)) λ r.
              retry-Fuelled (λ n. n) _ double_int (judge clk test.threshold mode params)
                (timed_loop-Fuelled work w (pos_part test.iterations)) double_int-Grown
                (judge-Fuelled clk test.threshold mode params) retry_fuel num 0 n _ h (omega arith)
