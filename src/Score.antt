-- ===== src/Score.antt =====
-- The scores of rtmb_c/src/testcase/util/result_mgmt/result_mgmt.c: `get_contribution`,
-- `generate_combined_score` and `compute_bm_test_result_scores`. A vector of results or scores is
-- the list of its elements, which `get_element_at` reads one by one; a read past its end is a read
-- through `NULL`.
pub mod Exchange
pub mod Combined
pub mod Create
mod Examples
use rtmb.Base.{
  ℕ, zero, suc, ◌-◌, ◌/◌, ◌%◌, ◌==◌, Bool, true, false, List, [], ◌∷◌, map, Option, none, some,
  get_elem?, length, leb, if◌then◌else◌, Fault, bad_pointer, out_of_bounds, assert_failed, Run, ok,
  fault, ◌>>=◌, ◌>>◌, require,
}
use rtmb.Base.Int.{ℤ, pos, quot, ◌-ℤ◌}
use rtmb.Double.{Double}
use rtmb.Result.{TestResults, read}

-- `get_element_at`, and a read through the pointer.
abbrev pub element_at {ℓ} : {A : Type ℓ} → List A → ℕ → Run A
element_at xs i = elim (get_elem? xs i) [ none ↦ fault bad_pointer | some x ↦ ok x ]

-- `test_score_t`, but its name.
pub record TestScore (F : Type 0) : Type 0 where
  pub result : List (TestResults F)
  pub consistency_score : F
  pub min_throughput : F
  pub max_throughput : F
  pub mean_throughput : F
  pub wgt_throughput : F
  pub throughput_score : F

-- `final_bm_test_result_t`
pub record FinalBmTestResult (F : Type 0) : Type 0 where
  pub score : List (TestScore F)
  pub throughput_test_score : F
  pub consistency_test_score : F
  pub test_score : F
  pub test_pass : Bool

-- The variables of the loop over the times in `generate_combined_score`.
pub record Throughput (F : Type 0) : Type 0 where
  pub least : F
  pub largest : F
  pub sum : F
  pub combined : F
  pub consistency_sum : F

module _ {F : Type 0} ⦃d : Double F⦄ where
  abbrev pub number : ℕ → F
  number n = d.of_int (pos n)

  -- The last branch of `get_contribution`, on `value * 100.0 / median`.
  step_contribution : F → F
  step_contribution percent =
      if d.lt (number 200) percent
      then number 0
      else if d.eq percent (number 100)
      then number 100
      else if d.lt percent (number 100)
      then d.mul (d.of_int (quot (d.to_int (d.add percent (number 10))) 10)) (number 10)
      else (let tens =
            d.to_int (d.div (d.of_int (d.to_int (d.sub percent (number 100)))) (number 10)) in
          d.sub (number 100) (d.of_int (d.to_int (d.mul (d.of_int tens) (number 10)))))

  unfoldable pub get_contribution : ℤ → F → F
  unfolding step_contribution
  get_contribution value median =
      let diff = d.sub (d.of_int value) median in
      let distance = (if d.lt diff (number 0) then d.neg diff else diff) in
      if d.eq diff (number 0)
      then number 100
      else if d.eq diff (d.neg median)
      then number 10
      else if d.eq diff median
      then number 0
      else if d.lt median distance
      then number 0
      else step_contribution (d.div (d.mul (d.of_int value) (number 100)) median)

  -- The inner loop of the sort: `x` stands in `median_array[i]`, and is exchanged for every
  -- smaller item behind it. The result is the item at `i` and the items behind it.
  unfoldable pub exchange : F → List F → F × List F
  exchange x [] = (x, [])
  exchange x (y ∷ ys) =
      let swapped = exchange y ys in
      let kept = exchange x ys in
      if d.lt y x then (swapped.0, x ∷ swapped.1) else (kept.0, y ∷ kept.1)

  -- The outer loop, over `n` items.
  unfoldable pub exchange_sort : ℕ → List F → List F
  exchange_sort zero xs = xs
  exchange_sort (suc n) [] = []
  exchange_sort (suc n) (x ∷ xs) = let (least, rest) = exchange x xs in least ∷ exchange_sort n rest

  -- The median of the sorted medians.
  unfoldable pub median_of_medians : List F → Run F
  median_of_medians sorted =
      let n = length sorted in
      if n % 2 == 0
      then (do
        require out_of_bounds (leb 1 (n / 2))
        a ← element_at sorted (n / 2)
        b ← element_at sorted (n / 2 - 1)
        ok (d.div (d.add a b) (number 2)))
      else element_at sorted (n / 2)

  -- `scale`
  abbrev pub scale : F
  scale = number 1000000

  -- A round of the loop over the times.
  unfoldable pub add_time : F → ℤ → Throughput F → Throughput F
  add_time median value t =
      let throughput = d.div (d.mul (number 1) scale) (d.of_int value) in
      let contribution = get_contribution value median in
      record {
        least = (if d.lt throughput t.least then throughput else t.least);
        largest =
            (if d.lt throughput t.least
              then t.largest
              else if d.lt t.largest throughput
              then throughput
              else t.largest);
        sum = d.add t.sum throughput;
        combined = d.add t.combined (d.div (d.mul contribution scale) (d.of_int value));
        consistency_sum = d.add t.consistency_sum contribution;
      }

  -- `for (j = 0; j < value_length; j++)`
  unfoldable pub add_times : F → ℕ → List ℤ → Throughput F → Run (Throughput F)
  add_times median zero vs t = ok t
  add_times median (suc n) [] t = fault out_of_bounds
  add_times median (suc n) (v ∷ vs) t = add_times median n vs (add_time median v t)

  -- The last element, whose times give the extremes their first value.
  abbrev pub last_result : List (TestResults F) → Run (TestResults F)
  last_result [] = fault bad_pointer
  last_result (r ∷ []) = ok r
  last_result (r ∷ s ∷ rs) = last_result (s ∷ rs)

  -- `result_length` is 1: the loop reads the times of the first result only.
  unfoldable pub generate_combined_score : List (TestResults F) → F → Run (List (TestScore F))
  generate_combined_score results reference_score = do
    let medians = map (λ r. d.of_int r.mediantime) results
    median ← median_of_medians (exchange_sort (length medians) medians)
    last ← last_result results
    v ← read last.values 0
    let start = d.div (d.mul scale (number 1)) (d.of_int v)
    first ← element_at results 0
    t ← add_times median first.num_entries first.values (record {
      least = start;
      largest = start;
      sum = number 0;
      combined = number 0;
      consistency_sum = number 0;
    })
    require assert_failed (d.lt (number 0) reference_score)
    let n = number first.num_entries
    ok (
        record {
          result = results;
          consistency_score = d.div t.consistency_sum n;
          min_throughput = t.least;
          max_throughput = t.largest;
          mean_throughput = d.div t.sum n;
          wgt_throughput = d.div t.combined (d.mul n (number 100));
          throughput_score = d.div reference_score median;
        }
        ∷ [])

  -- The loop of `compute_bm_test_result_scores`: the products of the roots.
  unfoldable pub score_products : F → List (TestScore F) → F × F → F × F
  score_products root [] acc = acc
  score_products root (s ∷ ss) (throughput, consistency) = score_products root ss (
    d.mul throughput (d.pow s.throughput_score root),
    d.mul consistency (d.pow s.consistency_score root),
  )

  -- The throughput and the consistency of a test: the scores of its only part, or the products.
  unfoldable pub overall_scores : List (TestScore F) → F × F
  overall_scores [] = score_products (d.div (number 1) (number 0)) [] (number 1, number 1)
  overall_scores (s ∷ []) = (s.throughput_score, s.consistency_score)
  overall_scores (s ∷ s' ∷ ss) =
      score_products (d.div (number 1) (number (length (s ∷ s' ∷ ss)))) (s ∷ s' ∷ ss)
        (number 1, number 1)

  unfoldable pub compute_bm_test_result_scores : FinalBmTestResult F → FinalBmTestResult F
  compute_bm_test_result_scores f =
      let (throughput, consistency) = overall_scores f.score in
      record f {
        consistency_test_score = consistency;
        throughput_test_score = throughput;
        test_score = d.pow (d.mul consistency throughput) (d.div (number 1) (number 2));
      }

  -- `calloc` clears `test_pass`.
  unfoldable pub create_final_bm_test_result1 : List (TestScore F) → FinalBmTestResult F
  create_final_bm_test_result1 score = compute_bm_test_result_scores (record {
    score = score;
    throughput_test_score = d.neg (number 1);
    consistency_test_score = d.neg (number 1);
    test_score = number 0;
    test_pass = false;
  })
