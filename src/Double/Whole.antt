-- ===== src/Double/Whole.antt =====
-- The operations of `double` can be given: by those of whole numbers.
use rtmb.Base.{◌&&◌}
use rtmb.Base.Int.{ℤ, pos, ◌+ℤ◌, ◌-ℤ◌, ◌*ℤ◌, ltb_ℤ, leb_ℤ}
use rtmb.Double.{Double}

instance abbrev pub whole : Double ℤ
whole = record {
  of_int = λ a. a;
  to_int = λ a. a;
  to_float = λ a. a;
  add = ◌+ℤ◌;
  sub = ◌-ℤ◌;
  mul = ◌*ℤ◌;
  div = λ a b. a;
  lt = ltb_ℤ;
  neg = λ a. pos 0 -ℤ a;
  eq = λ a b. leb_ℤ a b && leb_ℤ b a;
  sqrt = λ a. a;
  pow = λ a b. a;
}
