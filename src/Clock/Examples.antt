-- ===== src/Clock/Examples.antt =====
-- Readings and a sleep that is interrupted once.
use rtmb.Base.{◌≤◌, ok, ℕ, zero, suc, ◌≡◌, refl, arith, Returns}
use rtmb.Base.Int.{success, pos, ◌-ℤ◌, ◌≤ℤ◌}
use rtmb.Clock.{SleepAnswer, do_nano_sleep, TimeSpec, slept, interrupted, Sleeper, get_time_diff}
use rtmb.Clock.Difference.{IsTime, nanoseconds, NotAfter, get_time_diff-elapsed}
use rtmb.Clock.Sleep.{do_nano_sleep-success, Sleeps, IsAnswer, done, less}

abbrev before : TimeSpec
before = record { tv_sec = pos 7; tv_nsec = pos 999999900 }

abbrev after : TimeSpec
after = record { tv_sec = pos 8; tv_nsec = pos 50 }

get_time_diff-elapsed_example :
    Returns
      (λ t.
        (t ≡ pos (nanoseconds 8 50) -ℤ pos (nanoseconds 7 999999900))
        × (NotAfter 7 999999900 8 50 → pos 0 ≤ℤ t))
      (get_time_diff before after)
get_time_diff-elapsed_example =
    get_time_diff-elapsed before after 7 999999900 8 50
      (record { sec = refl; nsec = refl; sec_bound = omega arith; nsec_bound = omega arith })
      (record { sec = refl; nsec = refl; sec_bound = omega arith; nsec_bound = omega arith })

-- Two signals come at once, so that all of the time is left, and later ones no more.
abbrev after_signals : ℕ → TimeSpec → SleepAnswer
after_signals zero rqtp = interrupted rqtp
after_signals (suc zero) rqtp = interrupted rqtp
after_signals (suc (suc k)) rqtp = slept

abbrev signalled : Sleeper
signalled k rqtp = after_signals k rqtp

after_signals-IsAnswer :
    (k : ℕ) (rqtp : TimeSpec) (s n : ℕ)
    → IsTime rqtp s n
    → IsAnswer (nanoseconds s n) (after_signals k rqtp)
after_signals-IsAnswer zero rqtp s n is = less s n is (omega arith)
after_signals-IsAnswer (suc zero) rqtp s n is = less s n is (omega arith)
after_signals-IsAnswer (suc (suc k)) rqtp s n is = done

after_signals-slept : (k : ℕ) (rqtp : TimeSpec) → 2 ≤ k → after_signals k rqtp ≡ slept
after_signals-slept zero rqtp h = absurd (omega arith)
after_signals-slept (suc zero) rqtp h = absurd (omega arith)
after_signals-slept (suc (suc k)) rqtp h = refl

signalled-Sleeps : Sleeps signalled 2
signalled-Sleeps = record {
  answers = after_signals-IsAnswer;
  undisturbed = λ k rqtp s n h is. after_signals-slept k rqtp h;
}

do_nano_sleep-success_example : do_nano_sleep signalled 3 (pos 1500000000) ≡ ok success
do_nano_sleep-success_example =
    do_nano_sleep-success signalled 2 3 1500000000 signalled-Sleeps (omega arith) (omega arith)
