-- ===== src/Work/Round.antt =====
-- One round of `do_simple_int_opern`: no overflow, and a small result.
use rtmb.Base.{◌-◌, ok, ℕ, zero, suc, ◌+◌, ◌*◌, ◌^◌, ◌≤◌, ◌<◌, ◌≡◌, arith, Returns, returns, lt→ltb}
use rtmb.Base.Int.{
  ℤ, pos, negsuc, ◌+ℤ◌, ◌-ℤ◌, ◌*ℤ◌, ◌≤ℤ◌, +ℤ_parts, -ℤ_parts, quot, quot_lower, quot_upper,
}
use rtmb.Long.{
  Within-sub, sub_long-ok, add_long-ok, sub_long, mul_long-ok, Within-add, add_long, Within-mul,
  Within, mul_long, long_bound, checked,
}
use rtmb.Work.{int_opern, quot_long}

-- The largest number of loops of the theorems, and a bound for the divisor.
abbrev pub loops : ℕ
loops = 2 ^ 21

abbrev pub wide : ℕ
wide = 2 ^ 41 + 2 ^ 20

-- A result between zero and twice `i`.
abbrev pub Small : ℕ → ℤ → Type 0
Small i r = (pos 0 ≤ℤ r) × (r ≤ℤ pos (2 * i))

product_pos : (j i : ℕ) → pos j *ℤ pos i ≡ pos (j * i)
unfolding ◌*ℤ◌
product_pos j i = ground arith

product_neg : (m i : ℕ) → negsuc m *ℤ pos i ≡ pos 0 -ℤ pos (suc m * i)
unfolding ◌*ℤ◌ ◌-ℤ◌
product_neg m i = ground arith

checked-Small : (q : ℤ) (i : ℕ) → i ≤ loops → Small i q → Returns (Small i) (checked q)
checked-Small (pos n) i h s = rw (lt→ltb n long_bound (omega arith)) (returns s)
checked-Small (negsuc n) i h (lo, hi) = absurd (omega arith)

quot_pos-Small :
    (d : ℤ) (i j : ℕ)
    → 0 < j
    → i ≤ loops
    → pos 0 ≤ℤ d
    → d ≤ℤ pos (j * (2 * i))
    → Returns (Small i) (quot_long d (pos j))
unfolding quot_long
quot_pos-Small d i zero h small lo hi = absurd (omega arith)
quot_pos-Small d i (suc j) h small lo hi = checked-Small (quot d (suc j)) i small (
  quot_lower (suc j) d (pos 0) h (omega arith),
  quot_upper (suc j) d (pos (2 * i)) h (omega arith),
)

negated : (q : ℤ) (i k : ℕ) → suc k ≡ 2 * i → negsuc k ≤ℤ q → q ≤ℤ pos 0 → Small i (pos 0 -ℤ q)
negated q i k e lo hi = (omega (arith, -ℤ_parts (pos 0) q), omega (arith, -ℤ_parts (pos 0) q))

quot_neg-Small :
    (d : ℤ) (i m k : ℕ)
    → suc k ≡ 2 * i
    → i ≤ loops
    → d ≤ℤ pos 0
    → pos 0 ≤ℤ (d +ℤ pos (suc m * suc k))
    → Returns (Small i) (quot_long d (negsuc m))
unfolding quot_long
quot_neg-Small d i m k e small hi lo = checked-Small (pos 0 -ℤ quot d (suc m)) i small (
    negated (quot d (suc m)) i k e
      (quot_lower (suc m) d (negsuc k) (omega arith)
        (omega (arith, +ℤ_parts d (pos (suc m * suc k)))))
      (quot_upper (suc m) d (pos 0) (omega arith) (omega arith)))

-- One more loop: the sum, the product and their difference are in the range of a `long`.
record Fits (i j : ℤ) : Type 0 where
  product : mul_long j i ≡ ok (j *ℤ i)
  sum : add_long j i ≡ ok (j +ℤ i)
  difference : sub_long (j *ℤ i) (j +ℤ i) ≡ ok (j *ℤ i -ℤ (j +ℤ i))

Within-Fits : (i : ℕ) (j : ℤ) → i ≤ loops → Within wide j → Fits (pos i) j
Within-Fits i j h w =
    let wi : Within loops (pos i) = record { above = h; below = omega arith } in
    let p = Within-mul wide loops j (pos i) w wi in
    let s = Within-add wide loops j (pos i) w wi in
    record {
      product = mul_long-ok (wide * loops) (omega arith) j (pos i) p;
      sum = add_long-ok (wide + loops) (omega arith) j (pos i) s;
      difference =
          sub_long-ok (wide * loops + (wide + loops)) (omega arith) (j *ℤ pos i) (j +ℤ pos i)
            (Within-sub (wide * loops) (wide + loops) (j *ℤ pos i) (j +ℤ pos i) p s);
    }

difference_pos :
    (i j : ℕ)
    → j + i ≤ j * i
    → (pos 0 ≤ℤ (pos j *ℤ pos i -ℤ (pos j +ℤ pos i)))
      × ((pos j *ℤ pos i -ℤ (pos j +ℤ pos i)) ≤ℤ pos (j * (2 * i)))
difference_pos i j h = rw (product_pos j i) (
  omega (arith, -ℤ_parts (pos (j * i)) (pos j +ℤ pos i), +ℤ_parts (pos j) (pos i)),
  omega (arith, -ℤ_parts (pos (j * i)) (pos j +ℤ pos i), +ℤ_parts (pos j) (pos i)),
)

pub int_opern_pos :
    (i j : ℕ)
    → 0 < j
    → j + i ≤ j * i
    → i ≤ loops
    → j ≤ wide
    → Returns (Small i) (int_opern (pos i) (pos j))
unfolding int_opern
int_opern_pos i j h le small w =
    let f = Within-Fits i (pos j) small (record { above = w; below = omega arith }) in
    let (lo, hi) = difference_pos i j le in
    rw (f.product, f.sum, f.difference)
      (quot_pos-Small (pos j *ℤ pos i -ℤ (pos j +ℤ pos i)) i j h small lo hi)

more_than_once : (i m k : ℕ) → 2 ≤ i → suc k ≡ 2 * i → suc m + i + suc m * i ≤ suc m + suc m * suc k
more_than_once i m k h e = grind arith

at_least_twice : (i m : ℕ) → 2 ≤ i → suc m ≤ suc m * i
at_least_twice i m h = grind arith

difference_neg :
    (i m k : ℕ)
    → 2 ≤ i
    → suc k ≡ 2 * i
    → ((negsuc m *ℤ pos i -ℤ (negsuc m +ℤ pos i)) ≤ℤ pos 0)
      × (pos 0 ≤ℤ ((negsuc m *ℤ pos i -ℤ (negsuc m +ℤ pos i)) +ℤ pos (suc m * suc k)))
difference_neg i m k h e = rw (product_neg m i) (
  omega (
    arith,
    -ℤ_parts (pos 0 -ℤ pos (suc m * i)) (negsuc m +ℤ pos i),
    -ℤ_parts (pos 0) (pos (suc m * i)),
    +ℤ_parts (negsuc m) (pos i),
    at_least_twice i m h,
  ),
  omega (
    arith,
    -ℤ_parts (pos 0 -ℤ pos (suc m * i)) (negsuc m +ℤ pos i),
    +ℤ_parts (pos 0 -ℤ pos (suc m * i) -ℤ (negsuc m +ℤ pos i)) (pos (suc m * suc k)),
    -ℤ_parts (pos 0) (pos (suc m * i)),
    +ℤ_parts (negsuc m) (pos i),
    more_than_once i m k h e,
  ),
)

pub int_opern_neg :
    (i m : ℕ) → 2 ≤ i → i ≤ loops → suc m ≤ wide → Returns (Small i) (int_opern (pos i) (negsuc m))
unfolding int_opern
int_opern_neg i m h small w =
    let f = Within-Fits i (negsuc m) small (record { above = omega arith; below = w }) in
    let e : suc (2 * i - 1) ≡ 2 * i = omega arith in
    let (hi, lo) = difference_neg i m (2 * i - 1) h e in
    rw (f.product, f.sum, f.difference)
      (quot_neg-Small (negsuc m *ℤ pos i -ℤ (negsuc m +ℤ pos i)) i m (2 * i - 1) e small hi lo)
