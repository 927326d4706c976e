-- ===== src/Clock/Fuelled.antt =====
-- `get_time_diff` needs no fuel: it gives the difference, or an overflow as a fault.
use rtmb.Result.Fuelled.{add_long-Fuelled, sub_long-Fuelled, mul_long-Fuelled}
use rtmb.Base.{Fuelled-bind, Fuelled}
use rtmb.Clock.{billion, TimeSpec, get_time_diff, convert_time_to_nsec}
use rtmb.Base.Int.{pos}

convert_time_to_nsec-Fuelled : (ts : TimeSpec) → Fuelled (convert_time_to_nsec ts)
unfolding convert_time_to_nsec
convert_time_to_nsec-Fuelled ts =
    Fuelled-bind (mul_long-Fuelled ts.tv_sec (pos billion)) λ t. add_long-Fuelled t ts.tv_nsec

pub get_time_diff-Fuelled : (start end : TimeSpec) → Fuelled (get_time_diff start end)
unfolding get_time_diff
get_time_diff-Fuelled start end =
    Fuelled-bind (convert_time_to_nsec-Fuelled end)
      λ e. Fuelled-bind (convert_time_to_nsec-Fuelled start) λ s. sub_long-Fuelled e s
