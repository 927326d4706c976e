-- ===== src/Result/Create.antt =====
-- The creation of results: `create_test_result` and `create_test_result1`. `calloc` clears the
-- memory; it fails for a negative number of items, and memory is never exhausted otherwise.
use rtmb.Result.Recorded.{IsResult}
use rtmb.Result.{unlock_if, lock_if, free_chain, TestResults}
use rtmb.Double.{Double}
use rtmb.Base.Int.{ℤ, negsuc, pos}
use rtmb.Base.{
  faulted, returned, Fuelled, arith, ◌>>=◌, out_of_bounds, aborted, returns, fault, ◌∷◌, ok,
  length-replicate, if◌then◌else◌, ◌≡◌, replicate, [], Run, Bool, Returns, ℕ, List, false, suc,
  zero, refl,
}

module _ {F : Type 0} ⦃d : Double F⦄ where
  -- A cleared result with room for `n` times.
  abbrev pub cleared : ℕ → ℕ → TestResults F
  cleared iters n = record {
    meantime = pos 0;
    mediantime = pos 0;
    stdtime = d.of_int (pos 0);
    maxtime = pos 0;
    mintime = pos 0;
    num_entries = 0;
    opern_amount = pos 0;
    values = replicate n (pos 0);
    locked = false;
    desc = [];
    rc = pos 0;
    iterations = iters;
    name = [];
    max_entries = n;
    non_conforming_iterations = pos 0;
    min_acceptable_iterations = pos 0;
    negative_limit = d.of_int (pos 0);
    positive_limit = d.of_int (pos 0);
  }

  unfoldable pub create_test_result : ℕ → ℤ → Run (List (TestResults F))
  create_test_result count (pos iters) = ok (replicate count (cleared iters iters))
  create_test_result zero (negsuc iters) = ok []
  create_test_result (suc count) (negsuc iters) = fault aborted

  unfoldable pub create_test_result1 : ℕ → ℕ → ℕ → List (TestResults F)
  create_test_result1 count iters num_entries = replicate count (cleared iters num_entries)

  pub create_test_result-cleared :
      (iters : ℤ) (n : ℕ) → iters ≡ pos n → create_test_result 1 iters ≡ ok (cleared n n ∷ [])
  unfolding create_test_result
  create_test_result-cleared iters n e = rw e refl

  pub create_test_result-Fuelled :
      (count : ℕ) (iters : ℤ) → Fuelled (create_test_result count iters)
  unfolding create_test_result
  create_test_result-Fuelled count (pos iters) = returned _
  create_test_result-Fuelled zero (negsuc iters) = returned []
  create_test_result-Fuelled (suc count) (negsuc iters) = faulted aborted

  -- The loop of `free_chains`.
  abbrev free_each : List (TestResults F) → Run (List (TestResults F))
  free_each [] = ok []
  free_each (r ∷ rs) = do r ← free_chain r false; rs ← free_each rs; ok (r ∷ rs)

  -- `free_chains` of all results of an array, whose first element holds the lock.
  unfoldable pub free_chains : List (TestResults F) → Bool → Run (List (TestResults F))
  free_chains [] synch = if synch then fault out_of_bounds else ok []
  free_chains (r ∷ rs) synch = do
    r ← lock_if synch r
    freed ← free_each (r ∷ rs)
    elim freed [ [] ↦ ok [] | r ∷ rs ↦ ok (unlock_if synch r ∷ rs) ]

  cleared-IsResult : (iters n : ℕ) → IsResult (cleared iters n) []
  cleared-IsResult iters n = record {
    rest = replicate n (pos 0);
    times = record { array = refl; used = refl };
    room = omega (arith, length-replicate n (pos 0));
    extremes = tt;
  }

  -- A created result is free, holds no times and has room for the times of all iterations.
  pub create_test_result-IsResult :
      (iters : ℕ)
      → Returns
          (λ rs.
            (r : TestResults F) × (rs ≡ r ∷ [])
            × IsResult r []
            × (r.locked ≡ false)
            × (r.max_entries ≡ iters))
          (create_test_result 1 (pos iters))
  unfolding create_test_result
  create_test_result-IsResult iters =
      returns (cleared iters iters, refl, cleared-IsResult iters iters, refl, refl)
