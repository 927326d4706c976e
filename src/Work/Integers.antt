-- ===== src/Work/Integers.antt =====
-- `do_simple_int_opern`: its divisor is never zero, and its result is never `ERROR`.
use rtmb.Work.{int_opern, int_rounds, int_of_long, do_simple_int_opern}
use rtmb.Long.{Within-sub, sub_long-ok, sub_long, Within, mul_mono, add_long}
use rtmb.Base.Int.{error, negsuc, ◌≤ℤ◌, neg_part, -ℤ_parts, ◌-ℤ◌, ◌+ℤ◌, pos_part, pos, ℤ}
use rtmb.Base.{
  zero, refl, ◌-◌, ◌≢◌, lt→ltb, Returns-bind, ◌%◌, returns, ok, ◌^◌, Returns, inr, dec_lt, inl,
  arith, ◌≡◌, ◌⊎◌, ◌*◌, ◌+◌, ◌≤◌, ℕ, suc,
}
use rtmb.Work.Round.{loops, wide, Small, int_opern_pos, int_opern_neg}

-- The divisor after the loop has counted to `i`: 2 * j + i * (i + 1) is 20006.
abbrev IsDivisor : ℕ → ℤ → Type 0
IsDivisor i j = 2 * pos_part j + i * (i + 1) ≡ 20006 + 2 * neg_part j

oblong : (i : ℕ) → (i ≤ 140) ⊎ (141 ≤ i)
oblong i = elim (dec_lt i 141) [ yes lt ↦ inl (omega arith) | no ge ↦ inr (omega arith) ]

-- No product of two neighbours is 20006, and the ones below leave a divisor of at least 133.
gap : (i k : ℕ) → 2 * k + i * (i + 1) ≡ 20006 → 133 ≤ k
gap i k e = elim (oblong i) [
  | inl le ↦ omega (arith, mul_mono 140 141 i (i + 1) le (omega arith))
  | inr ge ↦ absurd (omega (arith, mul_mono i (i + 1) 141 142 ge (omega arith)))
]

enough : (i j : ℕ) → 2 ≤ i → 2 ≤ j → j + i ≤ j * i
enough i j h k = grind arith

widest : (i m : ℕ) → i ≤ loops → i * (i + 1) ≡ 20006 + 2 * suc m → suc m ≤ wide
widest i m h e = omega (arith, mul_mono loops (loops + 1) i (i + 1) h (omega arith))

int_opern-Small :
    (i : ℕ) (j : ℤ)
    → 2 ≤ i
    → i ≤ loops
    → IsDivisor i j
    → Returns (Small i) (int_opern (pos i) j) × Within wide j
int_opern-Small i (pos j) h small is =
    let least = gap i j (omega arith) in
    (
      int_opern_pos i j (omega arith) (enough i j h (omega arith)) small (omega arith),
      record { above = omega arith; below = omega arith },
    )
int_opern-Small i (negsuc m) h small is =
    let w = widest i m small (omega arith) in
    (int_opern_neg i m h small w, record { above = omega arith; below = w })

next_oblong : (i : ℕ) → (i + 1) * (i + 1 + 1) ≡ i * (i + 1) + 2 * (i + 1)
next_oblong i = grind arith

next-IsDivisor : (i : ℕ) (j : ℤ) → IsDivisor i j → IsDivisor (i + 1) (j -ℤ pos (i + 1))
next-IsDivisor i j is = omega (arith, next_oblong i, -ℤ_parts j (pos (i + 1)))

add_one : (i : ℕ) → i ≤ loops → add_long (pos i) (pos 1) ≡ ok (pos (i + 1))
unfolding add_long ◌+ℤ◌
add_one i h = ground arith

next_divisor :
    (i : ℕ) (j : ℤ) → i ≤ loops → Within wide j → sub_long j (pos (i + 1)) ≡ ok (j -ℤ pos (i + 1))
next_divisor i j h w = sub_long-ok (wide + (loops + 1)) (omega arith) j (pos (i + 1)) (
    Within-sub wide (loops + 1) j (pos (i + 1)) w
      (record { above = omega arith; below = omega arith }))

Small-later : (i k : ℕ) (r : ℤ) → i ≤ k → Small i r → Small k r
Small-later i k r h (lo, hi) = (lo, omega arith)

int_rounds-Small :
    (n i : ℕ) (j res : ℤ)
    → 2 ≤ i
    → n + i ≤ loops
    → IsDivisor i j
    → Small loops res
    → Returns (Small loops) (int_rounds n (pos i) j res)
unfolding int_rounds
int_rounds-Small zero i j res h small is old = returns old
int_rounds-Small (suc n) i j res h small is old =
    let (round, w) = int_opern-Small i j h (omega arith) is in
    Returns-bind round λ res' s.
      rw (add_one i (omega arith), next_divisor i j (omega arith) w)
        (int_rounds-Small n (i + 1) (j -ℤ pos (i + 1)) res' (omega arith) (omega arith)
          (next-IsDivisor i j is) (Small-later i loops res' (omega arith) s))

int_of_long-Small : (r : ℤ) → Small loops r → int_of_long r ≡ r
unfolding int_of_long
int_of_long-Small (pos n) (lo, hi) =
    let low : n % 2 ^ 32 ≡ n = omega arith in rw low (rw (lt→ltb n (2 ^ 31) (omega arith)) refl)
int_of_long-Small (negsuc n) (lo, hi) = absurd (omega arith)

not_error : (r : ℤ) → pos 0 ≤ℤ r → r ≢ error
not_error (pos n) h e = absurd (ground (arith, e))
not_error (negsuc n) h e = absurd (omega arith)

-- For at most `2 ^ 21` loops `do_simple_int_opern` never divides by zero and never overflows, and
-- its result lies between 0 and `2 ^ 22`; in particular it is not `ERROR`.
pub do_simple_int_opern-Small :
    (num : ℕ)
    → num ≤ 2 ^ 21
    → Returns (λ r. (pos 0 ≤ℤ r) × (r ≤ℤ pos (2 ^ 22)) × (r ≢ error)) (do_simple_int_opern num)
unfolding do_simple_int_opern
do_simple_int_opern-Small num h =
    Returns-bind
      (int_rounds-Small (num - 2) 2 (pos 10000) (pos 0) (omega arith) (omega arith) (omega arith)
        (omega arith, omega arith))
      λ r s. rw (int_of_long-Small r s) (returns (s.0, s.1, not_error r s.0))
