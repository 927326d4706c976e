-- ===== src/Base/Int.antt =====
-- Signed integers over the native numbers, under the library's names. Sums and orders go through
-- the two parts of an integer, which are numbers that `omega` reads.
use Prim.Native.Nat.{ℕ, suc, ◌+◌, ◌-◌, ◌*◌, ◌/◌, ◌≤◌, ◌<◌}
use mathlib.Core.Path.{◌≡◌}
use mathlib.Core.Bool.{Bool}
use native.Mathlib.Omega.{arith}
use rtmb.Base.Tests.{ltb, leb, if◌then◌else◌}

-- `negsuc n` is -(n + 1).
pub data ℤ : Type 0 where
  pos : ℕ → ℤ
  negsuc : ℕ → ℤ

abbrev pub pos_part : ℤ → ℕ
pos_part (pos n) = n
pos_part (negsuc n) = 0

abbrev pub neg_part : ℤ → ℕ
neg_part (pos n) = 0
neg_part (negsuc n) = suc n

-- a - b, as an integer.
abbrev pub sub_ℕ : ℕ → ℕ → ℤ
sub_ℕ a b = if leb b a then pos (a - b) else negsuc (b - a - 1)

infixl 65 ◌+ℤ◌ ◌-ℤ◌
infixl 70 ◌*ℤ◌
infix 50 ◌≤ℤ◌ ◌<ℤ◌
unfoldable pub ◌+ℤ◌ : ℤ → ℤ → ℤ
a +ℤ b = sub_ℕ (pos_part a + pos_part b) (neg_part a + neg_part b)

unfoldable pub ◌-ℤ◌ : ℤ → ℤ → ℤ
a -ℤ b = sub_ℕ (pos_part a + neg_part b) (neg_part a + pos_part b)

unfoldable pub ◌*ℤ◌ : ℤ → ℤ → ℤ
a *ℤ b =
    sub_ℕ (pos_part a * pos_part b + neg_part a * neg_part b)
      (pos_part a * neg_part b + neg_part a * pos_part b)

-- C's division by a positive divisor: the quotient is cut towards zero.
unfoldable pub quot : ℤ → ℕ → ℤ
quot a n = sub_ℕ (pos_part a / n) (neg_part a / n)

abbrev pub ◌≤ℤ◌ : ℤ → ℤ → Type 0
a ≤ℤ b = pos_part a + neg_part b ≤ pos_part b + neg_part a

abbrev pub ◌<ℤ◌ : ℤ → ℤ → Type 0
a <ℤ b = pos_part a + neg_part b < pos_part b + neg_part a

abbrev pub ltb_ℤ : ℤ → ℤ → Bool
ltb_ℤ a b = ltb (pos_part a + neg_part b) (pos_part b + neg_part a)

abbrev pub leb_ℤ : ℤ → ℤ → Bool
leb_ℤ a b = leb (pos_part a + neg_part b) (pos_part b + neg_part a)

-- One lemma for each operation lets `omega` work with the operations shut, at any depth.
pub +ℤ_parts :
    (a b : ℤ)
    → pos_part (a +ℤ b) + neg_part a + neg_part b ≡ neg_part (a +ℤ b) + pos_part a + pos_part b
unfolding ◌+ℤ◌
+ℤ_parts a b = ground arith

pub -ℤ_parts :
    (a b : ℤ)
    → pos_part (a -ℤ b) + neg_part a + pos_part b ≡ neg_part (a -ℤ b) + pos_part a + neg_part b
unfolding ◌-ℤ◌
-ℤ_parts a b = ground arith

pub eq_of_parts : (a b : ℤ) → pos_part a + neg_part b ≡ pos_part b + neg_part a → a ≡ b
eq_of_parts a b h = ground arith

pub ruleset int_laws = (arith, +ℤ_parts, -ℤ_parts, eq_of_parts)

-- `q * n` against `a`, for the quotient `q` and remainder of a division.
le-div_of_mul : (n a b : ℕ) → 0 < n → n * b ≤ a → b ≤ a / n
le-div_of_mul n a b h k = grind arith

pub div-le_of_mul : (n a b : ℕ) → 0 < n → a ≤ n * b → a / n ≤ b
div-le_of_mul n a b h k = grind arith

-- A bound below `n` items, each at least `lo`, holds of their truncated mean; so does one above.
pub quot_lower :
    (n : ℕ) (a lo : ℤ)
    → 0 < n
    → n * pos_part lo + neg_part a ≤ pos_part a + n * neg_part lo
    → lo ≤ℤ quot a n
unfolding quot
quot_lower n (pos a) (pos lo) h k = ground (arith, le-div_of_mul n a lo h)
quot_lower n (pos a) (negsuc lo) h k = ground arith
quot_lower n (negsuc a) (pos lo) h k = absurd (omega arith)
quot_lower n (negsuc a) (negsuc lo) h k = ground (arith, div-le_of_mul n (suc a) (suc lo) h)

pub quot_upper :
    (n : ℕ) (a hi : ℤ)
    → 0 < n
    → pos_part a + n * neg_part hi ≤ n * pos_part hi + neg_part a
    → quot a n ≤ℤ hi
unfolding quot
quot_upper n (pos a) (pos hi) h k = ground (arith, div-le_of_mul n a hi h)
quot_upper n (pos a) (negsuc hi) h k = absurd (grind arith)
quot_upper n (negsuc a) (pos hi) h k = ground arith
quot_upper n (negsuc a) (negsuc hi) h k = ground (arith, le-div_of_mul n (suc a) (suc hi) h)

-- `SUCCESS` and `ERROR`
abbrev pub success : ℤ
success = pos 0

abbrev pub error : ℤ
error = negsuc 0
