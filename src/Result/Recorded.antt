-- ===== src/Result/Recorded.antt =====
-- A result that holds a list of times, and the step of `add_entry` that records one more.
use mathlib.Core.Path.{subst₂}
use rtmb.Base.{
  ℕ, suc, ◌+◌, ◌<◌, ◌≡◌, refl, ap, sym, List, [], ◌∷◌, ◌++◌, arith, length, length-append, set,
}
use rtmb.Base.Int.{ℤ}
use rtmb.Result.{TestResults, update_extremes}
use rtmb.Result.Std.{HasTimes}
use rtmb.Result.Extremes.{AreExtremes, set-append, lower, upper, AreExtremes-snoc}

-- The result holds the times `ts`, in the order in which they were added.
pub record IsResult {F : Type 0} (r : TestResults F) (ts : List ℤ) : Type 0 where
  pub rest : List ℤ
  pub times : HasTimes r ts rest
  pub room : length ts + length rest ≡ r.max_entries
  pub extremes : AreExtremes r.mintime r.maxtime ts

pub room-recorded :
    (n : ℕ) (ts rest more : List ℤ) (x t : ℤ)
    → rest ≡ x ∷ more
    → length ts + length rest ≡ n
    → length (ts ++ t ∷ []) + length more ≡ n
room-recorded n ts rest more x t e room =
    let long : length rest ≡ suc (length more) = ap length e in
    omega (arith, length-append {0} ts (t ∷ []))

module _ {F : Type 0} where
  -- The result with one more time, before the statistics.
  abbrev pub recorded : TestResults F → ℤ → TestResults F
  recorded r t = record (update_extremes r t) {
    values = set r.values r.num_entries t;
    num_entries = r.num_entries + 1;
  }

  abbrev pub Extreme : TestResults F → ℤ → ℤ → Type 0
  Extreme r lo hi = (r.mintime ≡ lo) × (r.maxtime ≡ hi)

  pub update_extremes-first :
      (r : TestResults F) (t : ℤ) → r.num_entries ≡ 0 → Extreme (update_extremes r t) t t
  unfolding update_extremes
  update_extremes-first r t e = (ground arith, ground arith)

  pub update_extremes-later :
      (r : TestResults F) (t : ℤ) (k : ℕ)
      → r.num_entries ≡ suc k
      → Extreme (update_extremes r t) (lower r.mintime t) (upper r.maxtime t)
  unfolding update_extremes
  update_extremes-later r t k e = (ground arith, ground arith)

  pub extremes-recorded :
      (r : TestResults F) (ts : List ℤ) (t : ℤ)
      → r.num_entries ≡ length ts
      → AreExtremes r.mintime r.maxtime ts
      → AreExtremes (recorded r t).mintime (recorded r t).maxtime (ts ++ t ∷ [])
  extremes-recorded r [] t used ex =
      let (lo, hi) = update_extremes-first r t used in
      subst₂ (λ a b. AreExtremes a b (t ∷ [])) (sym lo) (sym hi)
        ((omega arith, omega arith, tt), ground arith, ground arith)
  extremes-recorded r (x ∷ xs) t used ex =
      let (lo, hi) = update_extremes-later r t (length xs) used in
      subst₂ (λ a b. AreExtremes a b ((x ∷ xs) ++ t ∷ [])) (sym lo) (sym hi)
        (AreExtremes-snoc r.mintime r.maxtime x t xs ex)

  pub update_extremes-max_entries :
      (r : TestResults F) (t : ℤ) → (update_extremes r t).max_entries ≡ r.max_entries
  unfolding update_extremes
  update_extremes-max_entries r t = ground arith

  pub update_extremes-locked : (r : TestResults F) (t : ℤ) → (update_extremes r t).locked ≡ r.locked
  unfolding update_extremes
  update_extremes-locked r t = ground arith

  pub rest-pos :
      (r : TestResults F) (ts rest : List ℤ)
      → length ts < r.max_entries
      → length ts + length rest ≡ r.max_entries
      → (x : ℤ) × (more : List ℤ) × (rest ≡ x ∷ more)
  rest-pos r ts [] lt room = absurd (omega arith)
  rest-pos r ts (x ∷ more) lt room = (x, more, refl)

  pub times-recorded :
      (r : TestResults F) (ts more : List ℤ) (x t : ℤ)
      → HasTimes r ts (x ∷ more)
      → HasTimes (recorded r t) (ts ++ t ∷ []) more
  times-recorded r ts more x t is = record {
    array = rw (is.used, is.array) (set-append ts more x t);
    used = omega (arith, is.used, length-append {0} ts (t ∷ []));
  }

  pub recorded-IsResult :
      (r : TestResults F) (ts : List ℤ) (t : ℤ)
      → IsResult r ts
      → length ts < r.max_entries
      → IsResult (recorded r t) (ts ++ t ∷ [])
  recorded-IsResult r ts t is lt =
      let (x, more, e) = rest-pos r ts is.rest lt is.room in
      record {
        rest = more;
        times = times-recorded r ts more x t (rw e at is.times);
        room = rw update_extremes-max_entries (room-recorded _ ts is.rest more x t e is.room);
        extremes = extremes-recorded r ts t is.times.used is.extremes;
      }
