-- ===== src/Result/Median.antt =====
-- `get_median`, over a `qsort` that rearranges the array in some way.
use rtmb.Base.{
  Bool, ℕ, suc, ◌+◌, ◌-◌, ◌*◌, ◌/◌, ◌%◌, ◌≤◌, ◌<◌, ◌≡◌, refl, sym, ◌∙◌, ◌==◌, true, false, some,
  List, [], ◌∷◌, ◌++◌, arith, length, count, get_elem?, get_elem?-some, ◌⊎◌, out_of_bounds, leb, ok,
  fault, Returns, returns, Bool-cases, inl, inr,
}
use rtmb.Base.Int.{ℤ, pos, ◌+ℤ◌, ◌≤ℤ◌}
use rtmb.Long.{long_bound, add_long-ok, Within, Within-add}
use rtmb.Double.{Double}
use rtmb.Result.{compare_numbers, copy_values, middle, get_median, read}
use rtmb.Result.Sum.{AllWithin, AllBetween}
use rtmb.Result.Sorted.{
  IsSortedBy, Rearranges, below, above, between, count-below-sorted, count-above-sorted,
  count-between_self, count-between-sorted, same, count-same-pos,
}

-- `a` and `b` are the middle of the times, in their order: both occur, fewer than half of the times
-- are smaller than `a`, fewer than half are larger than `b`, and none lies strictly between.
pub record IsMiddle (a b : ℤ) (ts : List ℤ) : Type 0 where
  pub ordered : a ≤ℤ b
  pub low_occurs : 0 < count (same a) ts
  pub high_occurs : 0 < count (same b) ts
  pub few_smaller : 2 * count (below a) ts < length ts
  pub few_larger : 2 * count (above b) ts < length ts
  pub none_between : count (between a b) ts ≡ 0

-- `a` and `b` stand at the positions `k` and `l` of some order of the times. If that order is sorted,
-- they are the middle of the times.
pub record ArePlaced (k l : ℕ) (a b : ℤ) (ts : List ℤ) : Type 0 where
  pub order : List ℤ
  pub rearranged : (p : ℤ → Bool) → count p order ≡ count p ts
  pub low_placed : get_elem? order k ≡ some a
  pub high_placed : get_elem? order l ≡ some b
  pub low_occurs : 0 < count (same a) ts
  pub high_occurs : 0 < count (same b) ts
  pub middle_of_sorted : IsSortedBy compare_numbers order → IsMiddle a b ts

count-true : (xs : List ℤ) → count (λ _. true) xs ≡ length xs
count-true [] = refl
count-true (x ∷ xs) = omega (arith, count-true xs)

copy_values-append : (ts rest : List ℤ) → copy_values (length ts) (ts ++ rest) ≡ ok ts
unfolding copy_values
copy_values-append [] rest = refl
copy_values-append (t ∷ ts) rest = rw (copy_values-append ts rest)

module _ (qsort : (ℤ → ℤ → ℤ) → List ℤ → List ℤ) (q : Rearranges qsort) (ts : List ℤ) where
  abbrev sorted : List ℤ
  sorted = qsort compare_numbers ts

  length-sorted : length sorted ≡ length ts
  length-sorted = sym (count-true sorted) ∙ q.keeps (λ _. true) ts ∙ count-true ts

  same-occurs : (k : ℕ) (m : ℤ) → get_elem? sorted k ≡ some m → 0 < count (same m) ts
  same-occurs k m e = omega (arith, q.keeps (same m) ts, count-same-pos sorted k m e)

  below-few :
      (k : ℕ) (m : ℤ)
      → IsSortedBy compare_numbers sorted
      → get_elem? sorted k ≡ some m
      → count (below m) ts ≤ k
  below-few k m is e = omega (arith, q.keeps (below m) ts, count-below-sorted sorted k m is e)

  above-few :
      (k : ℕ) (m : ℤ)
      → IsSortedBy compare_numbers sorted
      → get_elem? sorted k ≡ some m
      → count (above m) ts + k < length ts
  above-few k m is e =
      omega (arith, q.keeps (above m) ts, length-sorted, count-above-sorted sorted k m is e)

  ArePlaced-odd :
      (k : ℕ) (m : ℤ) → length ts ≡ 2 * k + 1 → get_elem? sorted k ≡ some m → ArePlaced k k m m ts
  ArePlaced-odd k m len e = record {
    order = sorted;
    rearranged = λ p. q.keeps p ts;
    low_placed = e;
    high_placed = e;
    low_occurs = same-occurs k m e;
    high_occurs = same-occurs k m e;
    middle_of_sorted = λ is. record {
      ordered = omega arith;
      low_occurs = same-occurs k m e;
      high_occurs = same-occurs k m e;
      few_smaller = omega (arith, below-few k m is e);
      few_larger = omega (arith, above-few k m is e);
      none_between = count-between_self m ts;
    };
  }

  ArePlaced-even :
      (k : ℕ) (a b : ℤ)
      → length ts ≡ 2 * suc k
      → get_elem? sorted k ≡ some a
      → get_elem? sorted (suc k) ≡ some b
      → ArePlaced k (suc k) a b ts
  ArePlaced-even k a b len e f = record {
    order = sorted;
    rearranged = λ p. q.keeps p ts;
    low_placed = e;
    high_placed = f;
    low_occurs = same-occurs k a e;
    high_occurs = same-occurs (suc k) b f;
    middle_of_sorted = λ is.
        let (le, gap) = count-between-sorted sorted k a b is e f in
        record {
          ordered = le;
          low_occurs = same-occurs k a e;
          high_occurs = same-occurs (suc k) b f;
          few_smaller = omega (arith, below-few k a is e);
          few_larger = omega (arith, above-few (suc k) b is f);
          none_between = omega (arith, q.keeps (between a b) ts);
        };
  }

-- A time that occurs has the bounds of all times.
pub occurs-Within :
    (b : ℕ) (a : ℤ) (ts : List ℤ) → AllWithin b ts → 0 < count (same a) ts → Within b a
occurs-Within b a [] all h = absurd (omega arith)
occurs-Within b a (t ∷ ts) (w, all) h = elim (Bool-cases (same a t)) [
  | inl hit ↦ ground arith
  | inr miss ↦ occurs-Within b a ts all (ground arith)
]

pub occurs-between :
    (lo hi a : ℤ) (ts : List ℤ)
    → AllBetween lo hi ts
    → 0 < count (same a) ts
    → (lo ≤ℤ a) × (a ≤ℤ hi)
occurs-between lo hi a [] all h = absurd (omega arith)
occurs-between lo hi a (t ∷ ts) (l, u, all) h = elim (Bool-cases (same a t)) [
  | inl hit ↦ ground arith
  | inr miss ↦ occurs-between lo hi a ts all (ground arith)
]

-- What stands in the middle of some order of the times, in the arithmetic of the code: the time in
-- the middle of an odd number of them, half the sum of the two in the middle of an even number. If
-- that order is sorted, it is the median.
pub data MedianOf {F : Type 0} ⦃d : Double F⦄ (ts : List ℤ) : F → Type 0 where
  single : (k : ℕ) (m : ℤ) → length ts ≡ 2 * k + 1 → ArePlaced k k m m ts → MedianOf ts (d.of_int m)
  pair :
      (k : ℕ) (a b : ℤ)
      → length ts ≡ 2 * suc k
      → ArePlaced k (suc k) a b ts
      → MedianOf ts (d.div (d.of_int (a +ℤ b)) (d.of_int (pos 2)))

read-ok : (vs : List ℤ) (i : ℕ) (v : ℤ) → get_elem? vs i ≡ some v → read vs i ≡ ok v
read-ok vs i v e = ground arith

pub parity : (n : ℕ) → 0 < n → ((k : ℕ) × (n ≡ 2 * k + 1)) ⊎ ((k : ℕ) × (n ≡ 2 * suc k))
parity n h = elim (Bool-cases (n % 2 == 1)) [
  | inl odd ↦ inl (n / 2, ground arith)
  | inr even ↦ inr (n / 2 - 1, ground arith)
]

module _ {F : Type 0} ⦃d : Double F⦄ (qsort : (ℤ → ℤ → ℤ) → List ℤ → List ℤ) (q : Rearranges qsort)
    (ts : List ℤ) where
  middle-odd :
      (k : ℕ)
      → length ts ≡ 2 * k + 1
      → Returns {A = F} (MedianOf ts) (middle (qsort compare_numbers ts) (length ts))
  unfolding middle
  middle-odd k len =
      let half : length ts / 2 ≡ k = omega arith in
      let odd : (length ts % 2 == 1) ≡ true = ground arith in
      let (m, e) =
        get_elem?-some (qsort compare_numbers ts) k (omega (arith, length-sorted qsort q ts)) in
      rw (odd, half, read-ok _ k m e)
        (returns (single k m len (ArePlaced-odd qsort q ts k m len e)))

  middle-even :
      (k b : ℕ)
      → length ts ≡ 2 * suc k
      → AllWithin b ts
      → 2 * b < long_bound
      → Returns {A = F} (MedianOf ts) (middle (qsort compare_numbers ts) (length ts))
  unfolding middle
  middle-even k b len all small =
      let half : length ts / 2 ≡ suc k = omega arith in
      let even : (length ts % 2 == 1) ≡ false = ground arith in
      let long = length-sorted qsort q ts in
      let (x, e) = get_elem?-some (qsort compare_numbers ts) k (omega arith) in
      let (y, f) = get_elem?-some (qsort compare_numbers ts) (suc k) (omega arith) in
      let mid = ArePlaced-even qsort q ts k x y len e f in
      let wx = occurs-Within b x ts all mid.low_occurs in
      let wy = occurs-Within b y ts all mid.high_occurs in
      let two : leb 1 (suc k) ≡ true = ground arith in
      let before : suc k - 1 ≡ k = omega arith in
      rw
        (
          even,
          half,
          two,
          before,
          read-ok _ k x e,
          read-ok _ (suc k) y f,
          add_long-ok (b + b) (omega arith) x y (Within-add b b x y wx wy),
        )
        (returns (pair k x y len mid))

  pub get_median-MedianOf :
      (rest : List ℤ) (b : ℕ)
      → 0 < length ts
      → AllWithin b ts
      → 2 * b < long_bound
      → Returns {A = F} (MedianOf ts) (get_median qsort (ts ++ rest) (length ts))
  unfolding get_median
  get_median-MedianOf rest b ne all small =
      rw (copy_values-append ts rest) (elim (parity (length ts) ne) [
        | inl (k, odd) ↦ middle-odd k odd
        | inr (k, even) ↦ middle-even k b even all small
      ])

-- No time at all makes `get_median` read in front of the array.
pub get_median-empty :
    {F : Type 0} ⦃d : Double F⦄ (qsort : (ℤ → ℤ → ℤ) → List ℤ → List ℤ) (values : List ℤ)
    → get_median {F = F} qsort values 0 ≡ fault out_of_bounds
unfolding get_median middle copy_values
get_median-empty qsort values = refl
