-- ===== src/Result/Sorted.antt =====
-- The comparator of result_mgmt.c, what `qsort` does with it, and the positions of a sorted list.
use rtmb.Base.{
  ℕ, zero, suc, ◌+◌, ◌≤◌, ◌<◌, ◌≡◌, refl, ◌&&◌, Bool, some, List, [], ◌∷◌, arith, length, count,
  count-le-length, get_elem?,
}
use rtmb.Base.Int.{ℤ, pos, ◌≤ℤ◌, ◌<ℤ◌, ltb_ℤ, leb_ℤ}
use rtmb.Result.{compare_numbers}

-- The comparator puts `x` before every item of the list.
abbrev pub AllAfter : (ℤ → ℤ → ℤ) → ℤ → List ℤ → Type 0
AllAfter cmp x [] = Unit {0}
AllAfter cmp x (y ∷ ys) = (cmp x y ≤ℤ pos 0) × AllAfter cmp x ys

abbrev pub IsSortedBy : (ℤ → ℤ → ℤ) → List ℤ → Type 0
IsSortedBy cmp [] = Unit {0}
IsSortedBy cmp (x ∷ xs) = AllAfter cmp x xs × IsSortedBy cmp xs

-- What the code relies on: `qsort` rearranges the array, so that every test holds of as many items as
-- before. That it sorts is not assumed, since the code's comparator breaks the contract of `qsort`.
pub record Rearranges (qsort : (ℤ → ℤ → ℤ) → List ℤ → List ℤ) : Type 0 where
  pub keeps : (p : ℤ → Bool) (xs : List ℤ) → count p (qsort compare_numbers xs) ≡ count p xs

-- `compare_numbers` breaks the contract of `qsort` at every two different numbers: one order of the
-- arguments says "greater", and the other says "equal" where it should say "less".
pub compare_numbers-inconsistent :
    (a b : ℤ) → a <ℤ b → (compare_numbers b a ≡ pos 1) × (compare_numbers a b ≡ pos 0)
unfolding compare_numbers
compare_numbers-inconsistent a b h = ground arith

abbrev pub below : ℤ → ℤ → Bool
below m x = ltb_ℤ x m

abbrev pub above : ℤ → ℤ → Bool
above m x = ltb_ℤ m x

abbrev pub between : ℤ → ℤ → ℤ → Bool
between a b x = ltb_ℤ a x && ltb_ℤ x b

pub le_of_AllAfter :
    (x : ℤ) (ys : List ℤ) (k : ℕ) (m : ℤ)
    → AllAfter compare_numbers x ys
    → get_elem? ys k ≡ some m
    → x ≤ℤ m
unfolding compare_numbers
le_of_AllAfter x [] k m all e = cc
le_of_AllAfter x (y ∷ ys) zero m (le, all) e = ground arith
le_of_AllAfter x (y ∷ ys) (suc k) m (le, all) e = le_of_AllAfter x ys k m all e

pub count-below-AllAfter :
    (m x : ℤ) (ys : List ℤ) → m ≤ℤ x → AllAfter compare_numbers x ys → count (below m) ys ≡ 0
unfolding compare_numbers
count-below-AllAfter m x [] h all = refl
count-below-AllAfter m x (y ∷ ys) h (le, all) = ground (arith, count-below-AllAfter m x ys h all)

-- In a sorted list at most `k` items are smaller than the one at position `k`, and at most those
-- behind it are larger.
pub count-below-sorted :
    (s : List ℤ) (k : ℕ) (m : ℤ)
    → IsSortedBy compare_numbers s
    → get_elem? s k ≡ some m
    → count (below m) s ≤ k
count-below-sorted [] k m h e = cc
count-below-sorted (x ∷ s) zero m (after, h) e =
    let le : m ≤ℤ x = ground arith in ground (arith, count-below-AllAfter m x s le after)
count-below-sorted (x ∷ s) (suc k) m (after, h) e = ground (arith, count-below-sorted s k m h e)

pub count-above-sorted :
    (s : List ℤ) (k : ℕ) (m : ℤ)
    → IsSortedBy compare_numbers s
    → get_elem? s k ≡ some m
    → count (above m) s + k < length s
count-above-sorted [] k m h e = cc
count-above-sorted (x ∷ s) zero m (after, h) e = ground (arith, count-le-length (above m) s)
count-above-sorted (x ∷ s) (suc k) m (after, h) e =
    ground (arith, le_of_AllAfter x s k m after e, count-above-sorted s k m h e)

pub count-between-le : (a b : ℤ) (xs : List ℤ) → count (between a b) xs ≤ count (below b) xs
count-between-le a b [] = omega arith
count-between-le a b (x ∷ xs) = ground (arith, count-between-le a b xs)

pub count-between_self : (a : ℤ) (xs : List ℤ) → count (between a a) xs ≡ 0
count-between_self a [] = refl
count-between_self a (x ∷ xs) = ground (arith, count-between_self a xs)

-- Nothing lies strictly between neighbours of a sorted list.
pub count-between-sorted :
    (s : List ℤ) (k : ℕ) (a b : ℤ)
    → IsSortedBy compare_numbers s
    → get_elem? s k ≡ some a
    → get_elem? s (suc k) ≡ some b
    → (a ≤ℤ b) × (count (between a b) s ≡ 0)
count-between-sorted [] k a b h e f = cc
count-between-sorted (x ∷ s) zero a b (after, h) e f =
    let le : a ≤ℤ b = ground (arith, le_of_AllAfter x s 0 b after f) in
    (le, ground (arith, count-below-sorted s 0 b h f, count-between-le a b s))
count-between-sorted (x ∷ s) (suc k) a b (after, h) e f =
    let (le, rest) = count-between-sorted s k a b h e f in
    (le, ground (arith, le_of_AllAfter x s k a after e))

abbrev pub same : ℤ → ℤ → Bool
same a x = leb_ℤ a x && leb_ℤ x a

pub count-same-pos : (s : List ℤ) (k : ℕ) (a : ℤ) → get_elem? s k ≡ some a → 0 < count (same a) s
count-same-pos [] k a e = cc
count-same-pos (x ∷ s) zero a e = ground arith
count-same-pos (x ∷ s) (suc k) a e = ground (arith, count-same-pos s k a e)
