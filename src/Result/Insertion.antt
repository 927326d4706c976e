-- ===== src/Result/Insertion.antt =====
-- The assumptions on `qsort` can be met: a sorting function.
use rtmb.Base.{
  ◌≡◌, refl, List, [], ◌∷◌, arith, count, Bool, true, false, Bool-cases, inl, inr, if◌then◌else◌,
}
use rtmb.Base.Int.{ℤ, pos, ◌≤ℤ◌, leb_ℤ}
use rtmb.Result.{compare_numbers}
use rtmb.Result.Sorted.{AllAfter, IsSortedBy, Rearranges}

insert : (ℤ → ℤ → ℤ) → ℤ → List ℤ → List ℤ
insert cmp x [] = x ∷ []
insert cmp x (y ∷ ys) = if leb_ℤ (cmp x y) (pos 0) then x ∷ y ∷ ys else y ∷ insert cmp x ys

unfoldable pub insertion_sort : (ℤ → ℤ → ℤ) → List ℤ → List ℤ
unfolding insert
insertion_sort cmp [] = []
insertion_sort cmp (x ∷ xs) = insert cmp x (insertion_sort cmp xs)

count-insert :
    (p : ℤ → Bool) (x : ℤ) (ys : List ℤ) → count p (insert compare_numbers x ys) ≡ count p (x ∷ ys)
unfolding insert
count-insert p x [] = refl
count-insert p x (y ∷ ys) = ground (arith, count-insert p x ys)

count-insertion_sort :
    (p : ℤ → Bool) (xs : List ℤ) → count p (insertion_sort compare_numbers xs) ≡ count p xs
unfolding insertion_sort
count-insertion_sort p [] = refl
count-insertion_sort p (x ∷ xs) =
    rw (count-insert p x (insertion_sort compare_numbers xs), count-insertion_sort p xs)

AllAfter-trans :
    (x y : ℤ) (ys : List ℤ) → x ≤ℤ y → AllAfter compare_numbers y ys → AllAfter compare_numbers x ys
unfolding compare_numbers
AllAfter-trans x y [] h all = tt
AllAfter-trans x y (z ∷ zs) h (le, all) = (ground arith, AllAfter-trans x y zs h all)

AllAfter-insert :
    (x y : ℤ) (ys : List ℤ)
    → y ≤ℤ x
    → AllAfter compare_numbers y ys
    → AllAfter compare_numbers y (insert compare_numbers x ys)
unfolding insert compare_numbers
AllAfter-insert x y [] h all = (ground arith, tt)
AllAfter-insert x y (z ∷ zs) h (le, all) = elim (Bool-cases (leb_ℤ (compare_numbers x z) (pos 0))) [
  | inl front ↦ rw front (ground arith, (le, all))
  | inr behind ↦ rw behind (le, AllAfter-insert x y zs h all)
]

le-of_compare : (x y : ℤ) → leb_ℤ (compare_numbers x y) (pos 0) ≡ true → x ≤ℤ y
unfolding compare_numbers
le-of_compare x y h = ground arith

ge-of_compare : (x y : ℤ) → leb_ℤ (compare_numbers x y) (pos 0) ≡ false → y ≤ℤ x
unfolding compare_numbers
ge-of_compare x y h = ground arith

compare-of_le : (x y : ℤ) → x ≤ℤ y → compare_numbers x y ≤ℤ pos 0
unfolding compare_numbers
compare-of_le x y h = ground arith

insert-IsSortedBy :
    (x : ℤ) (ys : List ℤ)
    → IsSortedBy compare_numbers ys
    → IsSortedBy compare_numbers (insert compare_numbers x ys)
unfolding insert
insert-IsSortedBy x [] h = (tt, tt)
insert-IsSortedBy x (y ∷ ys) (after, h) = elim (Bool-cases (leb_ℤ (compare_numbers x y) (pos 0))) [
  | inl front ↦
      let le = le-of_compare x y front in
      rw front ((compare-of_le x y le, AllAfter-trans x y ys le after), (after, h))
  | inr behind ↦
      rw behind (AllAfter-insert x y ys (ge-of_compare x y behind) after, insert-IsSortedBy x ys h)
]

pub insertion_sort-IsSortedBy :
    (xs : List ℤ) → IsSortedBy compare_numbers (insertion_sort compare_numbers xs)
unfolding insertion_sort
insertion_sort-IsSortedBy [] = tt
insertion_sort-IsSortedBy (x ∷ xs) = insert-IsSortedBy x _ (insertion_sort-IsSortedBy xs)

pub insertion_sort-Rearranges : Rearranges insertion_sort
insertion_sort-Rearranges = record { keeps = count-insertion_sort }
