-- ===== src/Result/Extremes.antt =====
-- The extremes of the recorded times, and how one more time changes them.
use rtmb.Base.{
  ℕ, ◌+◌, ◌<◌, ◌≡◌, refl, ap, List, [], ◌∷◌, ◌++◌, arith, length, count, count-append, set,
  if◌then◌else◌, Bool-cases, inl, inr,
}
use rtmb.Base.Int.{ℤ, ◌≤ℤ◌, ltb_ℤ}
use rtmb.Long.{Within}
use rtmb.Result.Sum.{AllWithin, AllBetween}
use rtmb.Result.Sorted.{same}

-- `lo` and `hi` bound the times, and are times themselves. Nothing is said of no times.
abbrev pub AreExtremes : ℤ → ℤ → List ℤ → Type 0
AreExtremes lo hi [] = Unit {0}
AreExtremes lo hi (t ∷ ts) =
    AllBetween lo hi (t ∷ ts) × (0 < count (same lo) (t ∷ ts)) × (0 < count (same hi) (t ∷ ts))

pub AllBetween-snoc :
    (lo hi lo' hi' t : ℤ) (ts : List ℤ)
    → AllBetween lo hi ts
    → lo' ≤ℤ lo
    → hi ≤ℤ hi'
    → lo' ≤ℤ t
    → t ≤ℤ hi'
    → AllBetween lo' hi' (ts ++ t ∷ [])
AllBetween-snoc lo hi lo' hi' t [] all a b c e = (c, e, tt)
AllBetween-snoc lo hi lo' hi' t (x ∷ xs) (l, u, all) a b c e =
    (omega arith, omega arith, AllBetween-snoc lo hi lo' hi' t xs all a b c e)

pub AllWithin-snoc :
    (b : ℕ) (t : ℤ) (ts : List ℤ) → AllWithin b ts → Within b t → AllWithin b (ts ++ t ∷ [])
AllWithin-snoc b t [] all w = (w, tt)
AllWithin-snoc b t (x ∷ xs) (wx, all) w = (wx, AllWithin-snoc b t xs all w)

pub set-append :
    (ts rest : List ℤ) (x t : ℤ) → set (ts ++ x ∷ rest) (length ts) t ≡ (ts ++ t ∷ []) ++ rest
set-append [] rest x t = refl
set-append (y ∷ ts) rest x t = ap (◌∷◌ y) (set-append ts rest x t)

-- The new extremes, as the branches of `add_entry` choose them.
abbrev pub lower : ℤ → ℤ → ℤ
lower lo t = if ltb_ℤ t lo then t else lo

abbrev pub upper : ℤ → ℤ → ℤ
upper hi t = if ltb_ℤ hi t then t else hi

pub count-same-snoc :
    (a t : ℤ) (ts : List ℤ)
    → 0 < count (same a) ts + count (same a) (t ∷ [])
    → 0 < count (same a) (ts ++ t ∷ [])
count-same-snoc a t ts h = omega (arith, count-append {0} (same a) ts (t ∷ []))

pub count-same_self : (t : ℤ) → count (same t) (t ∷ []) ≡ 1
count-same_self t = ground arith

pub lower-occurs :
    (lo t : ℤ) (ts : List ℤ)
    → 0 < count (same lo) ts
    → 0 < count (same (lower lo t)) ts + count (same (lower lo t)) (t ∷ [])
lower-occurs lo t ts h = elim (Bool-cases (ltb_ℤ t lo)) [
  | inl new ↦ rw (new, count-same_self t) (omega arith)
  | inr old ↦ rw old (omega arith)
]

pub upper-occurs :
    (hi t : ℤ) (ts : List ℤ)
    → 0 < count (same hi) ts
    → 0 < count (same (upper hi t)) ts + count (same (upper hi t)) (t ∷ [])
upper-occurs hi t ts h = elim (Bool-cases (ltb_ℤ hi t)) [
  | inl new ↦ rw (new, count-same_self t) (omega arith)
  | inr old ↦ rw old (omega arith)
]

pub AreExtremes-snoc :
    (lo hi x t : ℤ) (xs : List ℤ)
    → AreExtremes lo hi (x ∷ xs)
    → AreExtremes (lower lo t) (upper hi t) ((x ∷ xs) ++ t ∷ [])
AreExtremes-snoc lo hi x t xs (all, low, high) = (
  AllBetween-snoc lo hi (lower lo t) (upper hi t) t (x ∷ xs) all (ground arith) (ground arith)
      (ground arith) (ground arith),
  count-same-snoc (lower lo t) t (x ∷ xs) (lower-occurs lo t (x ∷ xs) low),
  count-same-snoc (upper hi t) t (x ∷ xs) (upper-occurs hi t (x ∷ xs) high),
)
