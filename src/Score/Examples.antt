-- ===== src/Score/Examples.antt =====
-- Scores of small results, over whole numbers in place of a `double`.
use rtmb.Base.{◌≡◌, refl, Bool, List, [], ◌∷◌, count, length, arith, Returns}
use rtmb.Base.Int.{ℤ, pos, ltb_ℤ, ◌*ℤ◌}
use rtmb.Double.Whole.{whole}
use rtmb.Result.{TestResults}
use rtmb.Result.Sample.{holding}
use rtmb.Score.{exchange_sort, generate_combined_score}
use rtmb.Score.Exchange.{IsOrder, IsSorted, exchange_sort-sorts}
use rtmb.Score.Combined.{AreScores, generate_combined_score-AreScores}

order : IsOrder ltb_ℤ
order = record {
  asymmetric = λ x y h. ground (arith, h);
  transitive = λ x y z h k. ground (arith, h, k);
}

abbrev medians : List ℤ
medians = pos 3 ∷ pos 1 ∷ pos 2 ∷ []

exchange_sort-sorts_example :
    IsSorted (exchange_sort (length medians) medians)
    × ((p : ℤ → Bool) → count p (exchange_sort (length medians) medians) ≡ count p medians)
exchange_sort-sorts_example = exchange_sort-sorts order medians

abbrev times : List ℤ
times = pos 30 ∷ pos 10 ∷ []

abbrev full : TestResults ℤ
full = holding times 2 2 (pos 10) (pos 30)

generate_combined_score-AreScores_example :
    Returns
      (AreScores (full ∷ full ∷ []) times (pos 5) (pos 1000000 *ℤ pos 1))
      (generate_combined_score (full ∷ full ∷ []) (pos 5))
generate_combined_score-AreScores_example =
    generate_combined_score-AreScores full (full ∷ []) times [] full (pos 30) (pos 5)
      (record { array = refl; used = refl }) refl refl refl
