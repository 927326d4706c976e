-- ===== src/Result/Sample.antt =====
-- Results for the runs on concrete input, over whole numbers in place of a `double`.
use rtmb.Base.{ℕ, false, List, []}
use rtmb.Base.Int.{ℤ, pos}
use rtmb.Result.{TestResults}

-- A result with room for `n` times that holds none of them.
abbrev pub holding : List ℤ → ℕ → ℕ → ℤ → ℤ → TestResults ℤ
holding vs used n lo hi = record {
  meantime = pos 0;
  mediantime = pos 0;
  stdtime = pos 0;
  maxtime = hi;
  mintime = lo;
  num_entries = used;
  opern_amount = pos 0;
  values = vs;
  locked = false;
  desc = [];
  rc = pos 0;
  iterations = n;
  name = [];
  max_entries = n;
  non_conforming_iterations = pos 0;
  min_acceptable_iterations = pos 0;
  negative_limit = pos 0;
  positive_limit = pos 0;
}
