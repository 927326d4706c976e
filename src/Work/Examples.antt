-- ===== src/Work/Examples.antt =====
-- Runs of the work.
use rtmb.Work.{do_simple_int_opern, do_array_opern}
use rtmb.Base.Int.{error, success, ◌≤ℤ◌, pos}
use rtmb.Base.{length-replicate, ◌≢◌, length, arith, ◌^◌, replicate, ◌≡◌, ℕ, Returns, List, some}
use rtmb.Work.Integers.{do_simple_int_opern-Small}
use rtmb.Work.Arrays.{do_array_opern-SameLength}
use rtmb.Double.Whole.{whole}

do_simple_int_opern-Small_example :
    Returns (λ r. (pos 0 ≤ℤ r) × (r ≤ℤ pos (2 ^ 22)) × (r ≢ error)) (do_simple_int_opern 150)
do_simple_int_opern-Small_example = do_simple_int_opern-Small 150 (omega arith)

abbrev page : List ℕ
page = replicate 9000 0

do_array_opern-SameLength_example :
    Returns
      (λ (rc, m'). (rc ≡ success) × ((a : List ℕ) × (m' ≡ some a) × (length a ≡ 9000)))
      (do_array_opern (some page) 9000)
do_array_opern-SameLength_example =
    do_array_opern-SameLength page 9000 (length-replicate {A = ℕ} 9000 0)
