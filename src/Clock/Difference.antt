-- ===== src/Clock/Difference.antt =====
-- `get_time_diff`: the nanoseconds between two readings of the clock.
use rtmb.Base.{
  ◌-◌, ℕ, ◌+◌, ◌*◌, ◌≤◌, ◌<◌, ◌≡◌, ◌⊎◌, inl, inr, refl, arith, ok, Returns, returns, ◌^◌,
}
use rtmb.Base.Int.{pos, pos_part, neg_part, ◌+ℤ◌, ◌-ℤ◌, ◌*ℤ◌, ◌≤ℤ◌}
use rtmb.Long.{add_long, sub_long, mul_long, add_long-ok, sub_long-ok, mul_long-ok, long_bound}
use rtmb.Clock.{TimeSpec, billion, convert_time_to_nsec, get_time_diff}

-- A reading of the clock: less than 2 ^ 33 seconds, about 272 years, and a part of a second.
pub record IsTime (ts : TimeSpec) (s n : ℕ) : Type 0 where
  pub sec : ts.tv_sec ≡ pos s
  pub nsec : ts.tv_nsec ≡ pos n
  pub sec_bound : s < 2 ^ 33
  pub nsec_bound : n < billion

abbrev pub nanoseconds : ℕ → ℕ → ℕ
nanoseconds s n = s * billion + n

-- The order of two readings: seconds first.
abbrev pub NotAfter : ℕ → ℕ → ℕ → ℕ → Type 0
NotAfter s n s' n' = (s < s') ⊎ ((s ≡ s') × (n ≤ n'))

ready_lemma : (s n : ℕ) → pos s *ℤ pos billion ≡ pos (s * billion)
unfolding ◌*ℤ◌
ready_lemma s n = ground arith

sum_lemma : (a b : ℕ) → pos a +ℤ pos b ≡ pos (a + b)
unfolding ◌+ℤ◌
sum_lemma a b = ground arith

pub convert_time_to_nsec-nanoseconds :
    (ts : TimeSpec) (s n : ℕ) → IsTime ts s n → convert_time_to_nsec ts ≡ ok (pos (nanoseconds s n))
unfolding convert_time_to_nsec
convert_time_to_nsec-nanoseconds ts s n is =
    let product : mul_long (pos s) (pos billion) ≡ ok (pos (s * billion)) =
      rw
        (
          mul_long-ok (long_bound - 1) (omega arith) (pos s) (pos billion) (
              rw (ready_lemma s n)
                (record { above = omega (arith, is.sec_bound); below = omega arith })),
          ready_lemma s n,
        )
        refl in
    let total : add_long (pos (s * billion)) (pos n) ≡ ok (pos (nanoseconds s n)) =
      rw
        (
          add_long-ok (long_bound - 1) (omega arith) (pos (s * billion)) (pos n) (
              rw (sum_lemma (s * billion) n) (record {
                above = omega (arith, is.sec_bound, is.nsec_bound);
                below = omega arith;
              })),
          sum_lemma (s * billion) n,
        )
        refl in
    rw (is.sec, is.nsec, product) total

diff_lemma : (a b : ℕ) → neg_part (pos a -ℤ pos b) ≤ b
unfolding ◌-ℤ◌
diff_lemma a b = ground arith

diff_upper : (a b : ℕ) → pos_part (pos a -ℤ pos b) ≤ a
unfolding ◌-ℤ◌
diff_upper a b = ground arith

nanoseconds_bound : (ts : TimeSpec) (s n : ℕ) → IsTime ts s n → nanoseconds s n < long_bound - 1
nanoseconds_bound ts s n is = omega (arith, is.sec_bound, is.nsec_bound)

ordered_lemma :
    (s n s' n' : ℕ) → n < billion → NotAfter s n s' n' → nanoseconds s n ≤ nanoseconds s' n'
ordered_lemma s n s' n' h (inl lt) = omega arith
ordered_lemma s n s' n' h (inr (e, le)) = omega arith

diff_nonneg : (a b : ℕ) → a ≤ b → pos 0 ≤ℤ (pos b -ℤ pos a)
unfolding ◌-ℤ◌
diff_nonneg a b h = ground arith

-- For two readings of the clock, `get_time_diff` returns the difference of their times in
-- nanoseconds, without an overflow; if the first reading is not after the second, this is not
-- negative.
pub get_time_diff-elapsed :
    (start end : TimeSpec) (s n s' n' : ℕ)
    → IsTime start s n
    → IsTime end s' n'
    → Returns
        (λ t.
          (t ≡ pos (nanoseconds s' n') -ℤ pos (nanoseconds s n))
          × (NotAfter s n s' n' → pos 0 ≤ℤ t))
        (get_time_diff start end)
unfolding get_time_diff
get_time_diff-elapsed start end s n s' n' is is' =
    let difference : sub_long (pos (nanoseconds s' n')) (pos (nanoseconds s n))
        ≡ ok (pos (nanoseconds s' n') -ℤ pos (nanoseconds s n)) =
      sub_long-ok (long_bound - 1) (omega arith) (pos (nanoseconds s' n')) (pos (nanoseconds s n))
        (record {
          above = omega (
            arith,
            diff_upper (nanoseconds s' n') (nanoseconds s n),
            nanoseconds_bound end s' n' is',
          );
          below = omega (
            arith,
            diff_lemma (nanoseconds s' n') (nanoseconds s n),
            nanoseconds_bound start s n is,
          );
        }) in
    rw
      (
        convert_time_to_nsec-nanoseconds end s' n' is',
        convert_time_to_nsec-nanoseconds start s n is,
        difference,
      )
      (returns (
        refl,
        λ o.
            diff_nonneg (nanoseconds s n) (nanoseconds s' n')
              (ordered_lemma s n s' n' is.nsec_bound o),
      ))
