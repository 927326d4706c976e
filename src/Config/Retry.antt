-- ===== src/Config/Retry.antt =====
-- The loop that measures again: its fuel is enough.
use rtmb.Base.Int.{ℤ}
use rtmb.Params.{RtMode, InputParams}
use rtmb.Result.{TestResults, free_chain}
use rtmb.Result.Fuelled.{free_chain-Fuelled}
use rtmb.Result.Limits.{check_pass_criteria-Fuelled}
use rtmb.Double.{Double}
use rtmb.Config.{exhausted, again, accepted, retry, Ended, Verdict, int_bound, judge, double_int}
use mathlib.Core.Path.{subst}
use rtmb.Base.{
  arith_overflow, ge→ltb, sym, returned, arith, ◌≤◌, ok, faulted, Fuelled-bind, ◌<◌, Fuelled-if,
  ◌≡◌, Fuelled, lt→ltb, fault, Option, Fault, ◌*◌, dec_lt, Run, ℕ, true, ◌>>=◌, false, some, none,
  suc, zero, refl,
}

-- The size of the amount after `n` doublings.
abbrev pub doubled : ℕ → ℕ → ℕ
doubled zero size = size
doubled (suc n) size = doubled n (size * 2)

-- The amount of work grows like `num`: it doubles below the largest `int`, or there is a fault.
pub data Grown {Q : Type 0} (size : Q → ℕ) (q : Q) : Run Q → Type 0 where
  overflowed : (f : Fault) → Grown size q (fault f)
  grown : (q' : Q) → size q' ≡ size q * 2 → size q' < int_bound → Grown size q (ok q')

pub double_int-Grown : (num : ℕ) → Grown (λ n. n) num (double_int num)
unfolding double_int
double_int-Grown num = elim (dec_lt (num * 2) int_bound) [
  | yes fits ↦ rw (lt→ltb (num * 2) int_bound fits) (grown (num * 2) refl fits)
  | no large ↦ rw (ge→ltb (num * 2) int_bound (omega arith)) (overflowed arith_overflow)
]

module _ {F : Type 0} ⦃d : Double F⦄ where
  pub judge-Fuelled :
      (clk : F) (threshold : ℤ) (mode : RtMode) (params : InputParams F) (count : ℕ)
      (r : TestResults F)
      → Fuelled (judge clk threshold mode params count r)
  unfolding judge
  judge-Fuelled clk threshold mode params count r =
      Fuelled-if (d.lt clk (d.of_int r.mediantime)) _ _
        (Fuelled-bind (check_pass_criteria-Fuelled r mode params) λ c. returned _) (returned _)

  module _ {Q : Type 0} (size : Q → ℕ)
      (measure : Q → ℕ → TestResults F → Run (Option (TestResults F × ℕ))) (grow : Q → Run Q)
      (judged : ℕ → TestResults F → Run (Verdict × TestResults F))
      (measured : (q : Q) (n : ℕ) (r : TestResults F) → Fuelled (measure q n r))
      (larger : (q : Q) → Grown size q (grow q))
      (verdict : (count : ℕ) (r : TestResults F) → Fuelled (judged count r)) where
    grow-Fuelled :
        (q : Q) (m : Run Q) (k : Q → Run (Option (Ended F Q)))
        → Grown size q m
        → ((q' : Q) → size q' ≡ size q * 2 → size q' < int_bound → Fuelled (k q'))
        → Fuelled (m >>= k)
    grow-Fuelled q m k (overflowed f) next = faulted f
    grow-Fuelled q m k (grown q' e lt) next = next q' e lt

    judged_cases :
        (q : Q) (n : ℕ) (v : Verdict × TestResults F)
        (next : Q → ℕ → ℕ → TestResults F → Run (Option (Ended F Q)))
        → ((q' : Q) (count n : ℕ) (r : TestResults F)
            → size q' ≡ size q * 2
            → size q' < int_bound
            → Fuelled (next q' count n r))
        → Fuelled {A = Option (Ended F Q)} (elim v.0 [
          | accepted ↦ ok (some (record { passed = true; amount = q; result = v.1; calls = n }))
          | exhausted ↦ ok (some (record { passed = false; amount = q; result = v.1; calls = n }))
          | again count ↦ (do r ← free_chain v.1 false; amount ← grow q; next amount count n r)
        ])
    judged_cases q n (accepted, r) next h = returned _
    judged_cases q n (exhausted, r) next h = returned _
    judged_cases q n (again count, r) next h = Fuelled-bind (free_chain-Fuelled r false) λ r.
        grow-Fuelled q (grow q) (λ q. next q count n r) (larger q) λ q' e lt. h q' count n r e lt

    measured_cases :
        (m : Option (TestResults F × ℕ)) (k : TestResults F × ℕ → Run (Option (Ended F Q)))
        → ((m : TestResults F × ℕ) → Fuelled (k m))
        → Fuelled (elim m [ none ↦ ok none | some m ↦ k m ])
    measured_cases none k h = returned none
    measured_cases (some m) k h = h m

    -- With fuel for as many doublings as take the amount beyond the largest `int` the loop does not run
    -- out of it: it gives the last result, or an `ERROR` of the test, or it faults.
    pub retry-Fuelled :
        (fuel : ℕ) (q : Q) (count n : ℕ) (r : TestResults F)
        → size q < int_bound
        → int_bound ≤ doubled fuel (size q)
        → Fuelled (retry measure grow judged fuel q count n r)
    unfolding retry
    retry-Fuelled zero q count n r h k = absurd (omega arith)
    retry-Fuelled (suc fuel) q count n r h k = Fuelled-bind (measured q n r) λ m.
        measured_cases m _ λ m. Fuelled-bind (verdict count m.0) λ v.
          judged_cases q m.1 v (retry measure grow judged fuel) λ q' count n r e lt.
            retry-Fuelled fuel q' count n r lt (subst (λ x. int_bound ≤ doubled fuel x) (sym e) k)
