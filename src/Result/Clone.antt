-- ===== src/Result/Clone.antt =====
-- `clone_results`: a member by member copy that keeps the array of the destination and fills it.
use rtmb.Base.{
  ℕ, zero, suc, ◌≡◌, List, [], ◌∷◌, ◌++◌, arith, length, drop, leb, out_of_bounds, Run, ok, fault,
  ◌>>=◌, Bool-cases, inl, inr, if◌then◌else◌,
}
use rtmb.Base.Int.{ℤ}
use rtmb.Result.{TestResults}
use rtmb.Result.Std.{HasTimes}

-- `for (i = 0; i < n; i++) dest->values[i] = source->values[i]`
copy_over : ℕ → List ℤ → List ℤ → Run (List ℤ)
copy_over zero dest source = ok dest
copy_over (suc n) [] source = fault out_of_bounds
copy_over (suc n) (w ∷ dest) [] = fault out_of_bounds
copy_over (suc n) (w ∷ dest) (v ∷ source) = do t ← copy_over n dest source; ok (v ∷ t)

pub clone_results : {F : Type 0} → TestResults F → TestResults F → Run (TestResults F)
unfolding copy_over
clone_results dest source = do
  vs ← copy_over source.num_entries dest.values source.values
  ok (record source { values = vs })

-- What the copy leaves in the array of the destination.
abbrev pub copied : {F : Type 0} → TestResults F → TestResults F → List ℤ → Run (TestResults F)
copied dest source ts =
    if leb (length ts) (length dest.values)
    then ok (record source { values = ts ++ drop (length ts) dest.values })
    else fault out_of_bounds

copy_over-drop :
    (dest ts rest : List ℤ)
    → copy_over (length ts) dest (ts ++ rest) ≡ (
        if leb (length ts) (length dest)
        then ok (ts ++ drop (length ts) dest)
        else fault out_of_bounds)
unfolding copy_over
copy_over-drop dest [] rest = ground arith
copy_over-drop [] (t ∷ ts) rest = ground arith
copy_over-drop (w ∷ dest) (t ∷ ts) rest = ground (arith, copy_over-drop dest ts rest)

-- `clone_results` copies the recorded times and every other member, and keeps what the array of the
-- destination holds behind them. It does not look at the length of that array: with more times than
-- elements it writes past the end.
pub clone_results-copied :
    {F : Type 0} (dest source : TestResults F) (ts rest : List ℤ)
    → HasTimes source ts rest
    → clone_results dest source ≡ copied dest source ts
unfolding clone_results
clone_results-copied dest source ts rest is =
    let filled : copy_over source.num_entries dest.values source.values ≡ (
        if leb (length ts) (length dest.values)
        then ok (ts ++ drop (length ts) dest.values)
        else fault out_of_bounds) =
      rw (is.used, is.array) (copy_over-drop dest.values ts rest) in
    elim (Bool-cases (leb (length ts) (length dest.values))) [
      | inl fits ↦ rw (filled, fits)
      | inr short ↦ rw (filled, short)
    ]
