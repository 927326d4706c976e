-- ===== src/Long.antt =====
-- `long long`: integers of 64 bits, whose overflow C leaves undefined. An operation that would
-- leave the range is a fault here.
use rtmb.Base.{
  ℕ, suc, ◌+◌, ◌*◌, ◌^◌, ◌≤◌, ◌<◌, ◌≡◌, Bool, ◌&&◌, arith, arith_overflow, div_by_zero, Run, ok,
  fault, leb, ltb, if◌then◌else◌,
}
use rtmb.Base.Int.{ℤ, pos, negsuc, pos_part, neg_part, ◌+ℤ◌, ◌-ℤ◌, ◌*ℤ◌, quot, div-le_of_mul}

-- One more than the largest `long long`.
abbrev pub long_bound : ℕ
long_bound = 2 ^ 63

abbrev pub fits_long : ℤ → Bool
fits_long a = ltb (pos_part a) long_bound && leb (neg_part a) long_bound

abbrev pub checked : ℤ → Run ℤ
checked a = if fits_long a then ok a else fault arith_overflow

unfoldable pub add_long : ℤ → ℤ → Run ℤ
add_long a b = checked (a +ℤ b)

unfoldable pub sub_long : ℤ → ℤ → Run ℤ
sub_long a b = checked (a -ℤ b)

unfoldable pub mul_long : ℤ → ℤ → Run ℤ
mul_long a b = checked (a *ℤ b)

-- Division by a count, an `int` that is not negative.
unfoldable pub div_long : ℤ → ℕ → Run ℤ
div_long a n = if ltb 0 n then ok (quot a n) else fault div_by_zero

-- `a` lies between `-b` and `b`.
pub record Within (b : ℕ) (a : ℤ) : Type 0 where
  pub above : pos_part a ≤ b
  pub below : neg_part a ≤ b

pub Within-add : (a b : ℕ) (x y : ℤ) → Within a x → Within b y → Within (a + b) (x +ℤ y)
unfolding ◌+ℤ◌
Within-add a b x y p q = ground arith

pub Within-sub : (a b : ℕ) (x y : ℤ) → Within a x → Within b y → Within (a + b) (x -ℤ y)
unfolding ◌-ℤ◌
Within-sub a b x y p q = ground arith

pub mul_mono : (a b x y : ℕ) → x ≤ a → y ≤ b → x * y ≤ a * b
mul_mono a b x y p q = grind arith

pub Within-mul : (a b : ℕ) (x y : ℤ) → Within a x → Within b y → Within (a * b) (x *ℤ y)
unfolding ◌*ℤ◌
Within-mul a b (pos x) (pos y) p q = ground (arith, mul_mono a b x y p.above q.above)
Within-mul a b (pos x) (negsuc y) p q = ground (arith, mul_mono a b x (suc y) p.above q.below)
Within-mul a b (negsuc x) (pos y) p q = ground (arith, mul_mono a b (suc x) y p.below q.above)
Within-mul a b (negsuc x) (negsuc y) p q =
    ground (arith, mul_mono a b (suc x) (suc y) p.below q.below)

pub Within-quot : (n b : ℕ) (x : ℤ) → 0 < n → Within (n * b) x → Within b (quot x n)
unfolding quot
Within-quot n b (pos x) h p = ground (arith, div-le_of_mul n x b h p.above)
Within-quot n b (negsuc x) h p = ground (arith, div-le_of_mul n (suc x) b h p.below)

pub Within-mono : (a b : ℕ) (x : ℤ) → a ≤ b → Within a x → Within b x
Within-mono a b x le p = omega arith

module _ (b : ℕ) (small : b < long_bound) (x y : ℤ) where
  pub add_long-ok : Within b (x +ℤ y) → add_long x y ≡ ok (x +ℤ y)
  unfolding add_long
  add_long-ok w = ground arith

  pub sub_long-ok : Within b (x -ℤ y) → sub_long x y ≡ ok (x -ℤ y)
  unfolding sub_long
  sub_long-ok w = ground arith

  pub mul_long-ok : Within b (x *ℤ y) → mul_long x y ≡ ok (x *ℤ y)
  unfolding mul_long
  mul_long-ok w = ground arith

pub div_long-ok : (x : ℤ) (n : ℕ) → 0 < n → div_long x n ≡ ok (quot x n)
unfolding div_long
div_long-ok x n h = ground arith
