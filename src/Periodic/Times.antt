-- ===== src/Periodic/Times.antt =====
-- Sums and products of `long long` that fit, and the times of the timer in nanoseconds.
use rtmb.Clock.Difference.{convert_time_to_nsec-nanoseconds}
use rtmb.Periodic.{rem}
use rtmb.Long.{sub_long-ok, mul_long-ok, add_long-ok, sub_long, mul_long, add_long, long_bound}
use rtmb.Clock.{convert_time_to_nsec, billion}
use rtmb.Base.Int.{neg_part, pos_part, ◌-ℤ◌, ◌+ℤ◌, ◌*ℤ◌, quot, pos}
use rtmb.Base.{ap, ◌∙◌, ◌-◌, ◌%◌, ok, ◌≤◌, ◌^◌, ◌/◌, arith, ◌≡◌, ◌<◌, ◌+◌, ◌*◌, ℕ, refl}

difference_parts : (a b : ℕ) → (pos_part (pos a -ℤ pos b) ≤ a) × (neg_part (pos a -ℤ pos b) ≤ b)
unfolding ◌-ℤ◌
difference_parts a b = (ground arith, ground arith)

pub sub_ok :
    (a b : ℕ) → a < long_bound → b < long_bound → sub_long (pos a) (pos b) ≡ ok (pos a -ℤ pos b)
sub_ok a b h k = sub_long-ok (long_bound - 1) (omega arith) (pos a) (pos b) (record {
  above = omega (arith, (difference_parts a b).0);
  below = omega (arith, (difference_parts a b).1);
})

sum_lemma : (a b : ℕ) → pos a +ℤ pos b ≡ pos (a + b)
unfolding ◌+ℤ◌
sum_lemma a b = ground arith

pub add_ok : (a b : ℕ) → a + b < long_bound → add_long (pos a) (pos b) ≡ ok (pos (a + b))
add_ok a b h =
    add_long-ok (long_bound - 1) (omega arith) (pos a) (pos b)
      (rw (sum_lemma a b) (record { above = omega arith; below = omega arith }))
    ∙ ap ok (sum_lemma a b)

product_lemma : (a b : ℕ) → pos a *ℤ pos b ≡ pos (a * b)
unfolding ◌*ℤ◌
product_lemma a b = ground arith

pub mul_ok : (a b : ℕ) → a * b < long_bound → mul_long (pos a) (pos b) ≡ ok (pos (a * b))
mul_ok a b h =
    mul_long-ok (long_bound - 1) (omega arith) (pos a) (pos b)
      (rw (product_lemma a b) (record { above = omega arith; below = omega arith }))
    ∙ ap ok (product_lemma a b)

quot_lemma : (a : ℕ) → quot (pos a) billion ≡ pos (a / billion)
unfolding quot
quot_lemma a = ground arith

pub period_ns :
    (per : ℕ)
    → per < billion * 2 ^ 33
    → convert_time_to_nsec
        (record { tv_sec = quot (pos per) billion; tv_nsec = rem (pos per) billion })
      ≡ ok (pos per)
period_ns per h =
    convert_time_to_nsec-nanoseconds _ (per / billion) (per % billion) (record {
      sec = quot_lemma per;
      nsec = ground arith;
      sec_bound = omega arith;
      nsec_bound = omega arith;
    })
    ∙ ap (λ x. ok (pos x)) (omega arith)

pub start_ns :
    (s : ℕ)
    → s < 2 ^ 33
    → convert_time_to_nsec (record { tv_sec = pos s; tv_nsec = pos 0 }) ≡ ok (pos (s * billion))
start_ns s h =
    convert_time_to_nsec-nanoseconds _ s 0
      (record { sec = refl; nsec = refl; sec_bound = h; nsec_bound = omega arith })
    ∙ ap (λ x. ok (pos x)) (omega arith)
