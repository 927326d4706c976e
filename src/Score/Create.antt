-- ===== src/Score/Create.antt =====
-- New scores: `create_test_score1`, `create_test_score2`, `create_test_score3` and
-- `create_final_bm_test_result2`. `calloc` clears the memory, which is never exhausted.
use rtmb.Score.{create_final_bm_test_result1, number, FinalBmTestResult, TestScore}
use rtmb.Result.{TestResults}
use rtmb.Base.{◌∷◌, [], List}
use rtmb.Double.{Double}

module _ {F : Type 0} ⦃d : Double F⦄ where
  unfoldable pub create_test_score1 : List (TestResults F) → TestScore F
  create_test_score1 result = record {
    result = result;
    consistency_score = number 0;
    min_throughput = number 0;
    max_throughput = number 0;
    mean_throughput = number 0;
    wgt_throughput = number 0;
    throughput_score = number 0;
  }

  -- Without a vector of results; what reads it then reads through `NULL`.
  unfoldable pub create_test_score2 : TestScore F
  create_test_score2 = create_test_score1 []

  unfoldable pub create_test_score3 : TestResults F → TestScore F
  create_test_score3 result = create_test_score1 (result ∷ [])

  unfoldable pub create_final_bm_test_result2 : TestResults F → FinalBmTestResult F
  create_final_bm_test_result2 result =
      create_final_bm_test_result1 (create_test_score3 result ∷ [])
