-- ===== src/Clock.antt =====
-- The clock and the sleep of rtmb_c/src/testcase/util/time_mgmt/time_mgmt.c. `clock_gettime` is the
-- list of its answers: the `n`-th call gives the `n`-th one, or fails. `nanosleep` is a function
-- from the number of the call and the time asked for.
pub mod Difference
pub mod Sleep
pub mod Fuelled
mod Examples
use rtmb.Base.{
  ◌≡◌, refl, ℕ, zero, suc, ◌+◌, ◌*◌, ◌%◌, Option, none, some, Run, ok, out_of_fuel, ◌>>=◌,
  if◌then◌else◌,
}
use rtmb.Base.Int.{ℤ, pos, negsuc, pos_part, quot, ltb_ℤ, success, error}
use rtmb.Long.{add_long, sub_long, mul_long}

-- `struct timespec`
pub record TimeSpec : Type 0 where
  pub tv_sec : ℤ
  pub tv_nsec : ℤ

abbrev pub billion : ℕ
billion = 1000000000

unfoldable pub convert_time_to_nsec : TimeSpec → Run ℤ
convert_time_to_nsec ts = do time_ns ← mul_long ts.tv_sec (pos billion); add_long time_ns ts.tv_nsec

unfoldable pub get_time_diff : TimeSpec → TimeSpec → Run ℤ
get_time_diff start_time end_time = do
  end_ns ← convert_time_to_nsec end_time
  start_ns ← convert_time_to_nsec start_time
  sub_long end_ns start_ns

-- The answers of `clock_gettime`, by the number of the call.
abbrev pub Clock : Type 0
Clock = ℕ → Option TimeSpec

-- The result and what the caller's variable holds then; a failed call leaves it as it was.
unfoldable pub get_cur_time : Clock → ℕ → TimeSpec → ℤ × TimeSpec
get_cur_time clock n time = elim (clock n) [ some ts ↦ (success, ts) | none ↦ (error, time) ]

pub get_cur_time-reads :
    (clock : Clock) (n : ℕ) (old ts : TimeSpec)
    → clock n ≡ some ts
    → (get_cur_time clock n old).1 ≡ ts
unfolding get_cur_time
get_cur_time-reads clock n old ts h = rw (get_cur_time, h) refl

-- What `nanosleep` answers: zero, EINTR with the time that is left, or another error.
pub data SleepAnswer : Type 0 where
  slept : SleepAnswer
  interrupted : TimeSpec → SleepAnswer
  refused : SleepAnswer

abbrev pub Sleeper : Type 0
Sleeper = ℕ → TimeSpec → SleepAnswer

-- `while (nanosleep(&rqtp, &rmtp) != SUCCESS)`, from the `n`-th call on.
unfoldable pub sleep_loop : Sleeper → ℕ → ℕ → TimeSpec → Run ℤ
sleep_loop nanosleep zero n rqtp = out_of_fuel
sleep_loop nanosleep (suc fuel) n rqtp = elim (nanosleep n rqtp) [
  | slept ↦ ok success
  | interrupted rmtp ↦ sleep_loop nanosleep fuel (n + 1) rmtp
  | refused ↦ ok error
]

-- The seconds and nanoseconds of the request.
unfoldable pub split_nsecs : ℤ → TimeSpec
split_nsecs nsecs =
    let secs = quot nsecs billion in
    if ltb_ℤ (pos 0) secs
    then record { tv_sec = secs; tv_nsec = pos (pos_part nsecs % billion) }
    else record { tv_sec = pos 0; tv_nsec = nsecs }

unfoldable pub do_nano_sleep : Sleeper → ℕ → ℤ → Run ℤ
do_nano_sleep nanosleep fuel nsecs = sleep_loop nanosleep fuel 0 (split_nsecs nsecs)
