-- ===== src/Score/Combined.antt =====
-- `generate_combined_score`: what its scores say about the times and the medians.
use rtmb.Base.{
  ℕ, zero, suc, ◌+◌, ◌-◌, ◌*◌, ◌==◌, ◌/◌, ◌%◌, ◌<◌, ◌≡◌, ◌∙◌, ap, refl, true, false, List, [], ◌∷◌,
  ◌++◌, map, arith, length, get_elem?, get_elem?-some, inl, inr, leb, Returns, returns,
  Returns-bind, some, ok, if◌then◌else◌,
}
use rtmb.Base.Int.{ℤ}
use rtmb.Double.{Double}
use rtmb.Result.{TestResults, read}
use rtmb.Result.Median.{parity}
use rtmb.Result.Std.{HasTimes}
use rtmb.Score.{
  Throughput, TestScore, number, scale, get_contribution, add_time, add_times, exchange,
  exchange_sort, median_of_medians, last_result, element_at, generate_combined_score,
}
use rtmb.Score.Exchange.{length-exchange}

module _ {F : Type 0} ⦃d : Double F⦄ where
  -- `acc` and the values of all times, added in order.
  abbrev pub sum_from : (ℤ → F) → F → List ℤ → F
  sum_from f acc [] = acc
  sum_from f acc (t ∷ ts) = sum_from f (d.add acc (f t)) ts

  -- The throughput of a single time.
  abbrev pub throughput_of : ℤ → F
  throughput_of t = d.div (d.mul (number 1) scale) (d.of_int t)

  abbrev pub least_from : F → List ℤ → F
  least_from acc [] = acc
  least_from acc (t ∷ ts) =
      least_from (if d.lt (throughput_of t) acc then throughput_of t else acc) ts

  -- What the loop has after the times `ts`.
  record Summed (median : F) (t : Throughput F) (ts : List ℤ) (t' : Throughput F) : Type 0 where
    sum : t'.sum ≡ sum_from throughput_of t.sum ts
    least : t'.least ≡ least_from t.least ts
    combined :
        t'.combined
        ≡ sum_from (λ v. d.div (d.mul (get_contribution v median) scale) (d.of_int v)) t.combined ts
    consistency :
        t'.consistency_sum ≡ sum_from (λ v. get_contribution v median) t.consistency_sum ts

  add_times-Summed :
      (median : F) (ts rest : List ℤ) (t : Throughput F)
      → (t' : Throughput F) × (add_times median (length ts) (ts ++ rest) t ≡ ok t')
        × Summed median t ts t'
  unfolding add_times add_time
  add_times-Summed median [] rest t =
      (t, refl, record { sum = refl; least = refl; combined = refl; consistency = refl })
  add_times-Summed median (v ∷ ts) rest t =
      let (t', run, s) = add_times-Summed median ts rest (add_time median v t) in
      (
        t',
        run,
        record { sum = s.sum; least = s.least; combined = s.combined; consistency = s.consistency },
      )

  -- The scores of a test with the results `rs`, whose first one holds the times `ts`.
  pub record IsScored (rs : List (TestResults F)) (ts : List ℤ) (reference median start : F)
      (s : TestScore F) : Type 0 where
    pub result : s.result ≡ rs
    pub consistency :
        s.consistency_score
        ≡ d.div (sum_from (λ v. get_contribution v median) (number 0) ts) (number (length ts))
    pub mean : s.mean_throughput ≡ d.div (sum_from throughput_of (number 0) ts) (number (length ts))
    pub weighted :
        s.wgt_throughput
        ≡ d.div
            (sum_from
              (λ v. d.div (d.mul (get_contribution v median) scale) (d.of_int v))
              (number 0)
              ts)
            (d.mul (number (length ts)) (number 100))
    pub least : s.min_throughput ≡ least_from start ts
    pub throughput : s.throughput_score ≡ d.div reference median

element-ok :
    {A : Type 0} (xs : List A) (i : ℕ) (a : A) → get_elem? xs i ≡ some a → element_at xs i ≡ ok a
element-ok xs i a h = rw (element_at, h) refl

-- The median of a sorted list.
pub data IsMedian {F : Type 0} ⦃d : Double F⦄ (ms : List F) : F → Type 0 where
  middle : (k : ℕ) (m : F) → length ms ≡ 2 * k + 1 → get_elem? ms k ≡ some m → IsMedian ms m
  between :
      (k : ℕ) (a b : F)
      → length ms ≡ 2 * suc k
      → get_elem? ms (suc k) ≡ some a
      → get_elem? ms k ≡ some b
      → IsMedian ms (d.div (d.add a b) (number 2))

module _ {F : Type 0} ⦃d : Double F⦄ where
  median-odd :
      (ms : List F) (k : ℕ) → length ms ≡ 2 * k + 1 → Returns (IsMedian ms) (median_of_medians ms)
  unfolding median_of_medians
  median-odd ms k len =
      let half : length ms / 2 ≡ k = omega (arith, len) in
      let odd : (length ms % 2 == 0) ≡ false = ground (arith, len) in
      let (m, e) = get_elem?-some ms k (omega (arith, len)) in
      rw (odd, half, element-ok ms k m e) (returns (middle k m len e))

  median-even :
      (ms : List F) (k : ℕ) → length ms ≡ 2 * suc k → Returns (IsMedian ms) (median_of_medians ms)
  unfolding median_of_medians
  median-even ms k len =
      let half : length ms / 2 ≡ suc k = omega (arith, len) in
      let even : (length ms % 2 == 0) ≡ true = ground (arith, len) in
      let before : suc k - 1 ≡ k = omega arith in
      let (a, ea) = get_elem?-some ms (suc k) (omega (arith, len)) in
      let (b, eb) = get_elem?-some ms k (omega (arith, len)) in
      let low : leb 1 (suc k) ≡ true = ground arith in
      rw (even, half, low, before, element-ok ms (suc k) a ea, element-ok ms k b eb)
        (returns (between k a b len ea eb))

  median_of_medians-IsMedian :
      (ms : List F) → 0 < length ms → Returns (IsMedian ms) (median_of_medians ms)
  median_of_medians-IsMedian ms h = elim (parity (length ms) h) [
    | inl (k, e) ↦ median-odd ms k e
    | inr (k, e) ↦ median-even ms k e
  ]

  -- The sorted medians of the results.
  abbrev pub sorted_medians : List (TestResults F) → List F
  sorted_medians rs = let ms = map (λ r. d.of_int r.mediantime) rs in exchange_sort (length ms) ms

  length-exchange_sort : (n : ℕ) (xs : List F) → length (exchange_sort n xs) ≡ length xs
  unfolding exchange_sort
  length-exchange_sort zero xs = refl
  length-exchange_sort (suc n) [] = refl
  length-exchange_sort (suc n) (x ∷ xs) =
      ap suc (length-exchange_sort n ((exchange x xs).1) ∙ length-exchange x xs)

  medians-nonempty :
      (r : TestResults F) (rs : List (TestResults F)) → 0 < length (sorted_medians (r ∷ rs))
  medians-nonempty r rs =
      let ms = map (λ r. d.of_int r.mediantime) (r ∷ rs) in
      omega (arith, length-exchange_sort (length ms) ms)

  loop-run :
      (r : TestResults F) (ts rest : List ℤ) (median : F) (t : Throughput F)
      → HasTimes r ts rest
      → (t' : Throughput F) × (add_times median r.num_entries r.values t ≡ ok t')
        × Summed median t ts t'
  loop-run r ts rest median t times =
      let (t', run, s) = add_times-Summed median ts rest t in
      (t', rw (times.used, times.array) run, s)

  -- The score at the end.
  abbrev score_of : List (TestResults F) → ℕ → F → F → Throughput F → TestScore F
  score_of rs n reference median t = record {
    result = rs;
    consistency_score = d.div t.consistency_sum (number n);
    min_throughput = t.least;
    max_throughput = t.largest;
    mean_throughput = d.div t.sum (number n);
    wgt_throughput = d.div t.combined (d.mul (number n) (number 100));
    throughput_score = d.div reference median;
  }

  abbrev start_at : F → Throughput F
  start_at x = record {
    least = x;
    largest = x;
    sum = number 0;
    combined = number 0;
    consistency_sum = number 0;
  }

  IsScored-score_of :
      (rs : List (TestResults F)) (ts : List ℤ) (n : ℕ) (reference median x : F) (t : Throughput F)
      → n ≡ length ts
      → Summed median (start_at x) ts t
      → IsScored rs ts reference median x (score_of rs n reference median t)
  IsScored-score_of rs ts n reference median x t e s = record {
    result = refl;
    consistency = rw (s.consistency, e) refl;
    mean = rw (s.sum, e) refl;
    weighted = rw (s.combined, e) refl;
    least = s.least;
    throughput = refl;
  }

  -- What `generate_combined_score` returns for results `rs`, whose first holds `ts`: one score.
  pub data AreScores (rs : List (TestResults F)) (ts : List ℤ) (reference start : F)
      : List (TestScore F) → Type 0 where
    scored :
        {median : F} {s : TestScore F}
        → IsMedian (sorted_medians rs) median
        → IsScored rs ts reference median start s
        → AreScores rs ts reference start (s ∷ [])

  -- For results of which the first holds the times `ts` and the last has a first time, and a
  -- positive reference, `generate_combined_score` returns one score. Its throughput is the
  -- reference over the median of all medians, but consistency, mean and weighted throughput add up
  -- the times of the first result alone, and the least throughput starts from the last result.
  pub generate_combined_score-AreScores :
      (r : TestResults F) (rs : List (TestResults F)) (ts rest : List ℤ) (last : TestResults F)
      (v : ℤ) (reference : F)
      → HasTimes r ts rest
      → last_result (r ∷ rs) ≡ ok last
      → read last.values 0 ≡ ok v
      → d.lt (number 0) reference ≡ true
      → Returns
          (AreScores (r ∷ rs) ts reference (d.div (d.mul scale (number 1)) (d.of_int v)))
          (generate_combined_score (r ∷ rs) reference)
  unfolding generate_combined_score
  generate_combined_score-AreScores r rs ts rest last v reference times is_last is_first positive =
      Returns-bind (median_of_medians-IsMedian (sorted_medians (r ∷ rs)) (medians-nonempty r rs))
        λ median is_median.
          let x = d.div (d.mul scale (number 1)) (d.of_int v) in
          let (t, run, s) = loop-run r ts rest median (start_at x) times in
          rw (is_last, is_first, run, positive)
            (returns (
              scored is_median
                (IsScored-score_of (r ∷ rs) ts r.num_entries reference median x t times.used s)))
