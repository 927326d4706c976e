-- ===== src/Result/Fuelled.antt =====
-- The operations on a result do not run out of fuel: they give a value or a fault.
use rtmb.Result.{
  compare_numbers, lock_if, get_median, finish_entries, assign, add_entry, middle, compute_std_time,
  TestResults, sum_values, sum_squares, free_chain, copy_values,
}
use rtmb.Long.{fits_long, checked, sub_long, mul_long, div_long, add_long}
use rtmb.Double.{Double}
use rtmb.Base.Int.{◌-ℤ◌, ◌+ℤ◌, ◌*ℤ◌, ℤ, pos}
use rtmb.Base.{
  Option-Fuelled, ◌-◌, ◌+◌, ◌/◌, leb, ◌∷◌, length, get_elem?, div_by_zero, deadlock, assert_failed,
  arith_overflow, ◌==◌, ◌%◌, require-Fuelled, out_of_bounds, ltb, faulted, [], returned, Fuelled-if,
  Fuelled-bind, ℕ, List, Fuelled, Bool, false, true, suc, zero,
}

pub checked-Fuelled : (a : ℤ) → Fuelled (checked a)
checked-Fuelled a = Fuelled-if (fits_long a) _ _ (returned a) (faulted arith_overflow)

pub add_long-Fuelled : (a b : ℤ) → Fuelled (add_long a b)
unfolding add_long
add_long-Fuelled a b = checked-Fuelled (a +ℤ b)

pub sub_long-Fuelled : (a b : ℤ) → Fuelled (sub_long a b)
unfolding sub_long
sub_long-Fuelled a b = checked-Fuelled (a -ℤ b)

pub mul_long-Fuelled : (a b : ℤ) → Fuelled (mul_long a b)
unfolding mul_long
mul_long-Fuelled a b = checked-Fuelled (a *ℤ b)

div_long-Fuelled : (a : ℤ) (n : ℕ) → Fuelled (div_long a n)
unfolding div_long
div_long-Fuelled a n = Fuelled-if (ltb 0 n) _ _ (returned _) (faulted div_by_zero)

sum_values-Fuelled : (n : ℕ) (vs : List ℤ) (sum : ℤ) → Fuelled (sum_values n vs sum)
unfolding sum_values
sum_values-Fuelled zero vs sum = returned sum
sum_values-Fuelled (suc n) [] sum = faulted out_of_bounds
sum_values-Fuelled (suc n) (v ∷ vs) sum =
    Fuelled-bind (add_long-Fuelled sum v) (sum_values-Fuelled n vs)

sum_squares-Fuelled : (n : ℕ) (vs : List ℤ) (mean t : ℤ) → Fuelled (sum_squares n vs mean t)
unfolding sum_squares
sum_squares-Fuelled zero vs mean t = returned t
sum_squares-Fuelled (suc n) [] mean t = faulted out_of_bounds
sum_squares-Fuelled (suc n) (v ∷ vs) mean t = Fuelled-bind (sub_long-Fuelled v mean) λ diff.
    Fuelled-bind (mul_long-Fuelled diff diff)
      λ sq_diff. Fuelled-bind (add_long-Fuelled t sq_diff) (sum_squares-Fuelled n vs mean)

copy_values-Fuelled : (n : ℕ) (vs : List ℤ) → Fuelled (copy_values n vs)
unfolding copy_values
copy_values-Fuelled zero vs = returned []
copy_values-Fuelled (suc n) [] = faulted out_of_bounds
copy_values-Fuelled (suc n) (v ∷ vs) = Fuelled-bind (copy_values-Fuelled n vs) λ t. returned (v ∷ t)

assign-Fuelled : (vs : List ℤ) (i : ℕ) (v : ℤ) → Fuelled (assign vs i v)
assign-Fuelled vs i v = Fuelled-if (ltb i (length vs)) _ _ (returned _) (faulted out_of_bounds)

module _ {F : Type 0} where
  lock_if-Fuelled : (synch : Bool) (r : TestResults F) → Fuelled (lock_if synch r)
  lock_if-Fuelled true r = Fuelled-if r.locked _ _ (faulted deadlock) (returned _)
  lock_if-Fuelled false r = returned r

  pub free_chain-Fuelled : (r : TestResults F) (synch : Bool) → Fuelled (free_chain r synch)
  unfolding free_chain
  free_chain-Fuelled r synch = Fuelled-bind (lock_if-Fuelled synch r) λ r. returned _

module _ {F : Type 0} ⦃d : Double F⦄ where
  pub compute_std_time-Fuelled :
      (r : TestResults F) (synch : Bool) → Fuelled (compute_std_time r synch)
  unfolding compute_std_time
  compute_std_time-Fuelled r synch = Fuelled-bind (lock_if-Fuelled synch r) λ r.
      Fuelled-bind (sum_values-Fuelled r.num_entries r.values (pos 0)) λ sum.
        Fuelled-bind (div_long-Fuelled sum r.num_entries) λ mean.
          Fuelled-bind (sum_squares-Fuelled r.num_entries r.values mean (pos 0))
            λ t. Fuelled-bind (div_long-Fuelled t r.num_entries) λ m. returned _

  middle-Fuelled : (temp : List ℤ) (n : ℕ) → Fuelled {A = F} (middle temp n)
  unfolding middle
  middle-Fuelled temp n =
      Fuelled-if (n % 2 == 1) _ _
        (Fuelled-bind (Option-Fuelled out_of_bounds (get_elem? temp (n / 2))) λ v. returned _)
        (Fuelled-bind (require-Fuelled out_of_bounds (leb 1 (n / 2))) λ u.
          Fuelled-bind (Option-Fuelled out_of_bounds (get_elem? temp (n / 2 - 1))) λ a.
            Fuelled-bind (Option-Fuelled out_of_bounds (get_elem? temp (n / 2)))
              λ b. Fuelled-bind (add_long-Fuelled a b) λ s. returned _)

  module _ (qsort : (ℤ → ℤ → ℤ) → List ℤ → List ℤ) where
    get_median-Fuelled : (vs : List ℤ) (n : ℕ) → Fuelled {A = F} (get_median qsort vs n)
    unfolding get_median
    get_median-Fuelled vs n =
        Fuelled-bind (copy_values-Fuelled n vs) λ t. middle-Fuelled (qsort compare_numbers t) n

    finish_entries-Fuelled : (r : TestResults F) → Fuelled (finish_entries qsort r)
    unfolding finish_entries
    finish_entries-Fuelled r =
        Fuelled-if (r.num_entries == r.max_entries) _ _
          (Fuelled-bind (compute_std_time-Fuelled r false)
            λ r. Fuelled-bind (get_median-Fuelled r.values r.num_entries) λ m. returned _)
          (returned r)

    pub add_entry-Fuelled :
        (r : TestResults F) (t : ℤ) (synch : Bool) → Fuelled (add_entry qsort r t synch)
    unfolding add_entry
    add_entry-Fuelled r t synch =
        Fuelled-bind (require-Fuelled assert_failed (leb (r.num_entries + 1) r.max_entries)) λ u.
          Fuelled-bind (lock_if-Fuelled synch r) λ r.
            Fuelled-bind (assign-Fuelled _ _ t)
              λ vs. Fuelled-bind (finish_entries-Fuelled _) λ r. returned _
