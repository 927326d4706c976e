-- ===== src/Result/Normalize.antt =====
-- `normalize_result`: every time below a least one is replaced, and the statistics are made anew.
use mathlib.Core.Path.{subst₂}
use rtmb.Base.{
  ℕ, zero, suc, ◌+◌, ◌*◌, ◌<◌, ◌≡◌, refl, sym, ◌∙◌, List, [], ◌∷◌, ◌++◌, map, arith, length,
  length-map, count, true, false, out_of_bounds, Run, ok, fault, ◌>>=◌, Returns, returns,
  Returns-map, Returns-bind, Bool-cases, inl, inr, if◌then◌else◌,
}
use rtmb.Base.Int.{ℤ, ◌≤ℤ◌, ltb_ℤ}
use rtmb.Long.{long_bound, Within}
use rtmb.Double.{Double}
use rtmb.Result.{TestResults, get_median, compute_std_time}
use rtmb.Result.Sum.{AllWithin, AllBetween, pair-lt}
use rtmb.Result.Sorted.{Rearranges, same, below}
use rtmb.Result.Std.{HasTimes, compute_std_time-with_stats}
use rtmb.Result.Finish.{Summary, median-Returns}
use rtmb.Result.Extremes.{AreExtremes}

abbrev pub raised : ℤ → ℤ → ℤ → ℤ
raised least by v = if ltb_ℤ v least then by else v

-- The loop: the array and the number of replaced times.
normalize_values : ℤ → ℤ → ℕ → List ℤ → Run (List ℤ × ℕ)
normalize_values least by zero vs = ok (vs, 0)
normalize_values least by (suc n) [] = fault out_of_bounds
normalize_values least by (suc n) (v ∷ vs) = do
  (ws, c) ← normalize_values least by n vs
  ok (raised least by v ∷ ws, (if ltb_ℤ v least then 1 else 0) + c)

module _ {F : Type 0} ⦃d : Double F⦄ (qsort : (ℤ → ℤ → ℤ) → List ℤ → List ℤ) where
  pub normalize_result : TestResults F → ℤ → ℤ → Run (ℕ × TestResults F)
  unfolding normalize_values
  normalize_result r min_time normalize_time = do
    (vs, c) ← normalize_values min_time normalize_time r.num_entries r.values
    let r = record r {
      values = vs;
      mintime = raised min_time normalize_time r.mintime;
      maxtime = raised min_time normalize_time r.maxtime;
    }
    m ← get_median qsort r.values r.num_entries
    r ← compute_std_time (record r { mediantime = d.to_int m }) false
    ok (c, r)

normalize_values-raised :
    (least by : ℤ) (ts rest : List ℤ)
    → normalize_values least by (length ts) (ts ++ rest)
      ≡ ok (map (raised least by) ts ++ rest, count (below least) ts)
unfolding normalize_values
normalize_values-raised least by [] rest = refl
normalize_values-raised least by (t ∷ ts) rest = rw (normalize_values-raised least by ts rest)

AllWithin-raised :
    (b : ℕ) (least by : ℤ) (ts : List ℤ)
    → AllWithin b ts
    → Within b by
    → AllWithin b (map (raised least by) ts)
AllWithin-raised b least by [] all w = tt
AllWithin-raised b least by (t ∷ ts) (wt, all) w = elim (Bool-cases (ltb_ℤ t least)) [
  | inl low ↦ (rw low w, AllWithin-raised b least by ts all w)
  | inr high ↦ (rw high wt, AllWithin-raised b least by ts all w)
]

-- No time lies below `least`.
abbrev pub AllFrom : ℤ → List ℤ → Type 0
AllFrom least [] = Unit {0}
AllFrom least (t ∷ ts) = (least ≤ℤ t) × AllFrom least ts

AllFrom-raised :
    (least by : ℤ) (ts : List ℤ) → least ≤ℤ by → AllFrom least (map (raised least by) ts)
AllFrom-raised least by [] h = tt
AllFrom-raised least by (t ∷ ts) h = (ground arith, AllFrom-raised least by ts h)

AllBetween-raised :
    (lo hi m : ℤ) (ts : List ℤ)
    → AllBetween lo hi ts
    → AllBetween (raised m m lo) (raised m m hi) (map (raised m m) ts)
AllBetween-raised lo hi m [] all = tt
AllBetween-raised lo hi m (t ∷ ts) (l, u, all) =
    (ground arith, ground arith, AllBetween-raised lo hi m ts all)

occurs-raised :
    (a m : ℤ) (ts : List ℤ)
    → 0 < count (same a) ts
    → 0 < count (same (raised m m a)) (map (raised m m) ts)
occurs-raised a m [] h = absurd (omega arith)
occurs-raised a m (t ∷ ts) h = elim (Bool-cases (same a t)) [
  | inl hit ↦
      let hit' : same (raised m m a) (raised m m t) ≡ true = ground arith in rw hit' (omega arith)
  | inr miss ↦
      let rest : 0 < count (same a) ts = ground arith in
      let more = occurs-raised a m ts rest in ground arith
]

AreExtremes-raised :
    (lo hi m : ℤ) (ts : List ℤ)
    → AreExtremes lo hi ts
    → AreExtremes (raised m m lo) (raised m m hi) (map (raised m m) ts)
AreExtremes-raised lo hi m [] ex = tt
AreExtremes-raised lo hi m (t ∷ ts) (all, low, high) = (
  AllBetween-raised lo hi m (t ∷ ts) all,
  occurs-raised lo m (t ∷ ts) low,
  occurs-raised hi m (t ∷ ts) high,
)

module _ {F : Type 0} ⦃d : Double F⦄ where
  -- What `normalize_result` leaves of the times `ts`.
  pub record Normalized (r : TestResults F) (ts rest : List ℤ) (least by : ℤ)
      (out : ℕ × TestResults F) : Type 0 where
    pub replaced : out.0 ≡ count (below least) ts
    pub times : HasTimes out.1 (map (raised least by) ts) rest
    pub at_least : AllFrom least (map (raised least by) ts)
    pub summary : Summary out.1 (map (raised least by) ts)
    pub min_raised : out.1.mintime ≡ raised least by r.mintime
    pub max_raised : out.1.maxtime ≡ raised least by r.maxtime

  -- The result between the loop and the statistics.
  abbrev replaced_times : TestResults F → List ℤ → ℤ → ℤ → TestResults F
  replaced_times r vs least by = record r {
    values = vs;
    mintime = raised least by r.mintime;
    maxtime = raised least by r.maxtime;
  }

  module _ (r : TestResults F) (ts rest : List ℤ) (least by : ℤ) (is : HasTimes r ts rest) where
    HasTimes-raised :
        (m : ℤ)
        → HasTimes
            (record (replaced_times r (map (raised least by) ts ++ rest) least by) {
              mediantime = m;
            })
            (map (raised least by) ts)
            rest
    HasTimes-raised m = record {
      array = refl;
      used = is.used ∙ sym (length-map ts (raised least by));
    }

    loop-raised :
        normalize_values least by r.num_entries r.values
        ≡ ok (map (raised least by) ts ++ rest, count (below least) ts)
    loop-raised = rw (is.used, is.array) (normalize_values-raised least by ts rest)

  pub normalize_result-Normalized :
      (qsort : (ℤ → ℤ → ℤ) → List ℤ → List ℤ) (q : Rearranges qsort) (b : ℕ) (r : TestResults F)
      (ts rest : List ℤ) (least by : ℤ)
      → HasTimes r ts rest
      → 0 < length ts
      → AllWithin b ts
      → Within b by
      → least ≤ℤ by
      → length ts * ((b + b) * (b + b)) < long_bound
      → Returns (Normalized r ts rest least by) (normalize_result qsort r least by)
  unfolding normalize_result
  normalize_result-Normalized qsort q b r ts rest least by is ne all w le small =
      let more : 0 < length (map (raised least by) ts) =
        omega (arith, length-map {0, 0} ts (raised least by)) in
      let fits : length (map (raised least by) ts) * ((b + b) * (b + b)) < long_bound =
        rw (length-map ts (raised least by)) small in
      let all' = AllWithin-raised b least by ts all w in
      let r1 = replaced_times r (map (raised least by) ts ++ rest) least by in
      rw (loop-raised r ts rest least by is) (
        Returns-bind
          (median-Returns qsort q b r1 _ rest (HasTimes-raised r ts rest least by is r1.mediantime)
            more all' (pair-lt _ b more fits))
          λ f median.
            rw
              (compute_std_time-with_stats (record r1 { mediantime = d.to_int f }) _ rest b false
                (HasTimes-raised r ts rest least by is (d.to_int f)) (λ e. cc) more all' fits)
              (returns (record {
                replaced = refl;
                times = record {
                  array = refl;
                  used = is.used ∙ sym (length-map ts (raised least by));
                };
                at_least = AllFrom-raised least by ts le;
                summary = record {
                  mean = refl;
                  deviation = refl;
                  median = f;
                  is_median = median;
                  median_time = refl;
                };
                min_raised = refl;
                max_raised = refl;
              })))

  -- Where the replacement is the least time itself, the new extremes are those of the new times.
  pub normalize_result-AreExtremes :
      (qsort : (ℤ → ℤ → ℤ) → List ℤ → List ℤ) (q : Rearranges qsort) (b : ℕ) (r : TestResults F)
      (ts rest : List ℤ) (least : ℤ)
      → HasTimes r ts rest
      → AreExtremes r.mintime r.maxtime ts
      → 0 < length ts
      → AllWithin b ts
      → Within b least
      → length ts * ((b + b) * (b + b)) < long_bound
      → Returns
          (λ (c, r'). AreExtremes r'.mintime r'.maxtime (map (raised least least) ts))
          (normalize_result qsort r least least)
  normalize_result-AreExtremes qsort q b r ts rest least is ex ne all w small =
      Returns-map
        (normalize_result-Normalized qsort q b r ts rest least least is ne all w (omega arith)
          small)
        λ (c, r') n.
          subst₂ (λ lo hi. AreExtremes lo hi (map (raised least least) ts)) (sym n.min_raised)
            (sym n.max_raised) (AreExtremes-raised r.mintime r.maxtime least ts ex)
