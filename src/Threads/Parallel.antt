-- ===== src/Threads/Parallel.antt =====
-- The factors of the throughput of several threads.
use rtmb.Result.{TestResults}
use rtmb.Threads.{median_rounds}
use rtmb.Double.{Double}
use rtmb.Base.Int.{pos}
use rtmb.Base.{length-append, arith, ◌-◌, ok, ◌≡◌, [], ◌++◌, ◌∷◌, length, ℕ, List, refl}

module _ {F : Type 0} ⦃d : Double F⦄ where
  abbrev pub roots_of : ℕ → List (TestResults F) → F → F
  roots_of cpus [] product = product
  roots_of cpus (r ∷ rs) product = roots_of cpus rs (
      d.mul product
        (d.pow (d.of_int r.mediantime) (d.div (d.of_int (pos 1)) (d.of_int (pos cpus)))))

  abbrev pub medians_of : List (TestResults F) → F → F
  medians_of [] sum = sum
  medians_of (r ∷ rs) sum = medians_of rs (d.add sum (d.of_int r.mediantime))

  rounds :
      (cpus : ℕ) (rs more : List (TestResults F)) (product sum : F)
      → median_rounds (length rs) cpus (rs ++ more) product sum
        ≡ ok (roots_of cpus rs product, medians_of rs sum)
  unfolding median_rounds
  rounds cpus [] more product sum = refl
  rounds cpus (r ∷ rs) more product sum = rounds cpus rs more _ _

  but_last :
      (rs : List (TestResults F)) (last : TestResults F) → length (rs ++ last ∷ []) - 1 ≡ length rs
  but_last rs last = omega (arith, length-append rs (last ∷ []))

  -- The loop over all threads but the last takes the product of the roots of their medians and the
  -- sum of their medians: the median of the last thread is in neither.
  pub median_rounds-but_last :
      (cpus : ℕ) (rs : List (TestResults F)) (last : TestResults F) (product sum : F)
      → median_rounds (length (rs ++ last ∷ []) - 1) cpus (rs ++ last ∷ []) product sum
        ≡ ok (roots_of cpus rs product, medians_of rs sum)
  median_rounds-but_last cpus rs last product sum =
      rw (but_last rs last) (rounds cpus rs (last ∷ []) product sum)
