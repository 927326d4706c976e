-- ===== src/Result.antt =====
-- The `test_results_t` of rtmb_c/src/testcase/util/result_mgmt/result_mgmt.c: the times of one test
-- run and their statistics. The mutex is modelled for one thread: taking it while it is held never
-- returns. `values` is the array that was allocated, its length the number of its elements.
pub mod Median
pub mod Sum
pub mod Sorted
pub mod Std
pub mod Extremes
pub mod Recorded
pub mod Finish
pub mod Add
pub mod Limits
pub mod Normalize
pub mod Clone
pub mod Fuelled
pub mod Create
pub mod Insertion
pub mod Sample
mod Examples
use rtmb.Base.{
  ℕ, zero, suc, ◌+◌, ◌-◌, ◌/◌, ◌%◌, ◌==◌, Bool, true, false, List, [], ◌∷◌, if◌then◌else◌, Option,
  none, some, Fault, out_of_bounds, assert_failed, deadlock, aborted, Run, ok, fault, ◌>>=◌, ◌>>◌,
  require, leb, ltb, length, get_elem?, set, replicate,
}
use rtmb.Base.Int.{ℤ, pos, negsuc, ltb_ℤ}
use rtmb.Long.{add_long, sub_long, mul_long, div_long}
use rtmb.Double.{Double}

abbrev pub Bytes : Type 0
Bytes = List ℕ

-- `struct test_results`, but `next`, `result_id` and `pass`, which the code does not use.
pub record TestResults (F : Type 0) : Type 0 where
  pub meantime : ℤ
  pub mediantime : ℤ
  pub stdtime : F
  pub maxtime : ℤ
  pub mintime : ℤ
  pub num_entries : ℕ
  pub opern_amount : ℤ
  pub values : List ℤ
  pub locked : Bool
  pub desc : Bytes
  pub rc : ℤ
  pub iterations : ℕ
  pub name : Bytes
  pub max_entries : ℕ
  pub non_conforming_iterations : ℤ
  pub min_acceptable_iterations : ℤ
  pub negative_limit : F
  pub positive_limit : F

-- `values[i]`
abbrev pub read : List ℤ → ℕ → Run ℤ
read vs i = elim (get_elem? vs i) [ none ↦ fault out_of_bounds | some v ↦ ok v ]

-- `values[i] = v`
abbrev pub assign : List ℤ → ℕ → ℤ → Run (List ℤ)
assign vs i v = if ltb i (length vs) then ok (set vs i v) else fault out_of_bounds

-- `compare_numbers`: 1 if the first number is larger, and else 0.
unfoldable pub compare_numbers : ℤ → ℤ → ℤ
compare_numbers a b = if ltb_ℤ b a then pos 1 else pos 0

-- `for (i = 0; i < n; i++) temp[i] = values[i]`. An index that only moves forward through the array
-- is the part of it that is left.
unfoldable pub copy_values : ℕ → List ℤ → Run (List ℤ)
copy_values zero vs = ok []
copy_values (suc n) [] = fault out_of_bounds
copy_values (suc n) (v ∷ vs) = do t ← copy_values n vs; ok (v ∷ t)

-- `for (i = 0; i < n; i++) sum += values[i]`
unfoldable pub sum_values : ℕ → List ℤ → ℤ → Run ℤ
sum_values zero vs sum = ok sum
sum_values (suc n) [] sum = fault out_of_bounds
sum_values (suc n) (v ∷ vs) sum = do s ← add_long sum v; sum_values n vs s

-- The loop over the squared differences from the mean.
unfoldable pub sum_squares : ℕ → List ℤ → ℤ → ℤ → Run ℤ
sum_squares zero vs mean total = ok total
sum_squares (suc n) [] mean total = fault out_of_bounds
sum_squares (suc n) (v ∷ vs) mean total = do
  diff ← sub_long v mean
  sq_diff ← mul_long diff diff
  t ← add_long total sq_diff
  sum_squares n vs mean t

module _ {F : Type 0} where
  -- `if (synch == 1) pthread_mutex_lock(&result->mutex)`
  abbrev pub lock_if : Bool → TestResults F → Run (TestResults F)
  lock_if true r = if r.locked then fault deadlock else ok (record r { locked = true })
  lock_if false r = ok r

  -- `if (synch == 1) pthread_mutex_unlock(&result->mutex)`
  abbrev pub unlock_if : Bool → TestResults F → TestResults F
  unlock_if true r = record r { locked = false }
  unlock_if false r = r

  -- `free_chain`
  unfoldable pub free_chain : TestResults F → Bool → Run (TestResults F)
  free_chain r synch = do r ← lock_if synch r; ok (unlock_if synch (record r { num_entries = 0 }))

  -- `set_number_of_entries`: the array is given back, and a cleared one takes its place.
  pub set_number_of_entries : TestResults F → ℕ → TestResults F
  set_number_of_entries r n = record r { max_entries = n; values = replicate n (pos 0) }

  -- The first branch and the `else` of `add_entry`: the extremes with one more time.
  unfoldable pub update_extremes : TestResults F → ℤ → TestResults F
  update_extremes r t =
      if r.num_entries == 0 then record r { mintime = t; maxtime = t } else record r {
        maxtime = (if ltb_ℤ r.maxtime t then t else r.maxtime);
        mintime = (if ltb_ℤ t r.mintime then t else r.mintime);
      }

module _ {F : Type 0} ⦃d : Double F⦄ where
  unfoldable pub compute_std_time : TestResults F → Bool → Run (TestResults F)
  compute_std_time r synch = do
    r ← lock_if synch r
    sum ← sum_values r.num_entries r.values (pos 0)
    mean ← div_long sum r.num_entries
    total ← sum_squares r.num_entries r.values mean (pos 0)
    mean_total ← div_long total r.num_entries
    ok (
        unlock_if synch
          (record r { meantime = mean; stdtime = d.to_float (d.sqrt (d.of_int mean_total)) }))

  -- `temp[n / 2]`, or the mean of the two items in the middle.
  unfoldable pub middle : List ℤ → ℕ → Run F
  middle temp n = if n % 2 == 1 then (do v ← read temp (n / 2); ok (d.of_int v)) else (do
    require out_of_bounds (leb 1 (n / 2))
    a ← read temp (n / 2 - 1)
    b ← read temp (n / 2)
    s ← add_long a b
    ok (d.div (d.of_int s) (d.of_int (pos 2))))

  -- `qsort` is a parameter: it takes the comparator and the array.
  module _ (qsort : (ℤ → ℤ → ℤ) → List ℤ → List ℤ) where
    unfoldable pub get_median : List ℤ → ℕ → Run F
    get_median values n = do copied ← copy_values n values; middle (qsort compare_numbers copied) n

    -- The `if` of `add_entry` at the last entry.
    unfoldable pub finish_entries : TestResults F → Run (TestResults F)
    finish_entries r =
        if r.num_entries == r.max_entries
        then (do
          r ← compute_std_time r false
          m ← get_median r.values r.num_entries
          ok (record r { mediantime = d.to_int m }))
        else ok r

    unfoldable pub add_entry : TestResults F → ℤ → Bool → Run (TestResults F)
    add_entry r t synch = do
      require assert_failed (leb (r.num_entries + 1) r.max_entries)
      r ← lock_if synch r
      let r = update_extremes r t
      vs ← assign r.values r.num_entries t
      r ← finish_entries (record r { values = vs; num_entries = r.num_entries + 1 })
      ok (unlock_if synch r)
