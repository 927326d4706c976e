-- ===== src/Clock/Sleep.antt =====
-- `do_nano_sleep`: it goes on after every interruption, and comes to an end.
use rtmb.Base.{
  ◌≤◌, true, dec_lt, Run, ℕ, zero, suc, ◌+◌, ◌/◌, ◌%◌, ◌<◌, ◌≡◌, refl, arith, ok, ◌^◌, false,
}
use rtmb.Base.Int.{ltb_ℤ, ℤ, pos, quot, success, error}
use rtmb.Clock.{
  TimeSpec, SleepAnswer, slept, interrupted, refused, Sleeper, billion, sleep_loop, split_nsecs,
  do_nano_sleep,
}
use rtmb.Clock.Difference.{IsTime, nanoseconds}

-- The answer to a request of `t` nanoseconds: the sleep ends, or is interrupted with no more left.
pub data IsAnswer (t : ℕ) : SleepAnswer → Type 0 where
  done : IsAnswer t slept
  less :
      {rmtp : TimeSpec} (s n : ℕ)
      → IsTime rmtp s n
      → nanoseconds s n ≤ t
      → IsAnswer t (interrupted rmtp)

-- `nanosleep` accepts every time; it may be interrupted, with a time left that need not shrink, but
-- by signals that end: its calls from number `m` on are not.
pub record Sleeps (nanosleep : Sleeper) (m : ℕ) : Type 0 where
  pub answers :
      (k : ℕ) (rqtp : TimeSpec) (s n : ℕ)
      → IsTime rqtp s n
      → IsAnswer (nanoseconds s n) (nanosleep k rqtp)
  pub undisturbed :
      (k : ℕ) (rqtp : TimeSpec) (s n : ℕ) → m ≤ k → IsTime rqtp s n → nanosleep k rqtp ≡ slept

answer-success :
    (t : ℕ) (a : SleepAnswer) (call_again : TimeSpec → Run ℤ)
    → IsAnswer t a
    → ((rmtp : TimeSpec) (s n : ℕ)
        → IsTime rmtp s n
        → nanoseconds s n ≤ t
        → call_again rmtp ≡ ok success)
    → elim a [ slept ↦ ok success | interrupted rmtp ↦ call_again rmtp | refused ↦ ok error ]
      ≡ ok success
answer-success t slept call_again done next = refl
answer-success t refused call_again x next = elim x [ ]
answer-success t (interrupted rmtp) call_again (less s n is lt) next = next rmtp s n is lt

sleep_loop-success :
    (nanosleep : Sleeper) (m fuel k : ℕ) (rqtp : TimeSpec) (s n : ℕ)
    → Sleeps nanosleep m
    → IsTime rqtp s n
    → 0 < fuel
    → m < fuel + k
    → sleep_loop nanosleep fuel k rqtp ≡ ok success
unfolding sleep_loop
sleep_loop-success nanosleep m zero k rqtp s n sleeps is fuelled h = absurd (omega arith)
sleep_loop-success nanosleep m (suc fuel) k rqtp s n sleeps is fuelled h = elim (dec_lt k m) [
  | yes early ↦
      answer-success (nanoseconds s n) (nanosleep k rqtp) (sleep_loop nanosleep fuel (k + 1))
        (sleeps.answers k rqtp s n is)
        λ rmtp s' n' is' le.
          sleep_loop-success nanosleep m fuel (k + 1) rmtp s' n' sleeps is' (omega arith)
            (omega arith)
  | no late ↦ rw (sleep_loop, sleeps.undisturbed k rqtp s n (omega arith) is) refl
]

quot_pos : (n : ℕ) → quot (pos n) billion ≡ pos (n / billion)
unfolding quot
quot_pos n = ground arith

some_secs : (k : ℕ) → 0 < k → ltb_ℤ (pos 0) (pos k) ≡ true
some_secs k h = ground arith

no_secs : (k : ℕ) → k ≡ 0 → ltb_ℤ (pos 0) (pos k) ≡ false
no_secs k h = ground arith

split_nsecs-IsTime :
    (n : ℕ)
    → n < 2 ^ 31
    → (s : ℕ) × (r : ℕ) × IsTime (split_nsecs (pos n)) s r × (nanoseconds s r ≡ n)
unfolding split_nsecs
split_nsecs-IsTime n h = elim (dec_lt 0 (n / billion)) [
  | yes long ↦ (
    n / billion,
    n % billion,
    rw (quot_pos n, some_secs (n / billion) long)
        (record { sec = refl; nsec = refl; sec_bound = omega arith; nsec_bound = omega arith }),
    omega arith,
  )
  | no short ↦ (
    0,
    n,
    rw (quot_pos n, no_secs (n / billion) (omega arith))
        (record { sec = refl; nsec = refl; sec_bound = omega arith; nsec_bound = omega arith }),
    omega arith,
  )
]

-- For `n` nanoseconds, an `int`, and a `nanosleep` that accepts every time and whose calls signals
-- interrupt as long as they come, before call `m`, `do_nano_sleep` returns success, after at most
-- `m + 1` calls. The time that is left after an interruption need not shrink.
pub do_nano_sleep-success :
    (nanosleep : Sleeper) (m fuel n : ℕ)
    → Sleeps nanosleep m
    → n < 2 ^ 31
    → m < fuel
    → do_nano_sleep nanosleep fuel (pos n) ≡ ok success
unfolding do_nano_sleep
do_nano_sleep-success nanosleep m fuel n sleeps small h =
    let (s, r, is, same) = split_nsecs-IsTime n small in
    sleep_loop-success nanosleep m fuel 0 (split_nsecs (pos n)) s r sleeps is (omega arith)
      (omega arith)
