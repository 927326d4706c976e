-- ===== src/Work/Floats.antt =====
-- `do_simple_float_opern` and `add_n_numbers`.
use rtmb.Work.{float_rounds, do_simple_float_opern, rem_long, add_rounds, add_n_numbers}
use rtmb.Long.{add_long}
use rtmb.Double.{Double}
use rtmb.Base.Int.{◌-ℤ◌, ◌*ℤ◌, ◌+ℤ◌, quot, pos}
use rtmb.Base.{ge→ltb, lt→ltb, arith, ◌-◌, ok, ltb, ◌≤◌, ◌≡◌, ◌<◌, ◌+◌, ℕ, suc, zero, refl}

-- A `double` counts exactly and compares its counts like whole numbers: true up to 2 ^ 53.
pub record CountsTo {F : Type 0} (d : Double F) (top : ℕ) : Type 0 where
  pub counts :
      (n : ℕ) → n < top → d.add (d.of_int (pos n)) (d.of_int (pos 1)) ≡ d.of_int (pos (n + 1))
  pub compares :
      (n m : ℕ) → n ≤ top → m ≤ top → d.lt (d.of_int (pos n)) (d.of_int (pos m)) ≡ ltb n m

module _ {F : Type 0} ⦃d : Double F⦄ where
  -- The result of the last of `n` rounds from the count `i` on.
  abbrev pub last_quotient : ℕ → ℕ → F → F → F
  last_quotient zero i j res = res
  last_quotient (suc n) i j res =
      let x = d.of_int (pos i) in
      last_quotient n (i + 1) (d.sub j (d.of_int (pos (i + 1))))
        (d.div (d.div (d.mul j (d.div j x)) (d.sub j x)) x)

  float_rounds-last_quotient :
      (fuel n i num top : ℕ) (j res : F)
      → CountsTo d top
      → n ≡ num - i
      → num ≤ top
      → i ≤ top
      → n < fuel
      → float_rounds fuel (d.of_int (pos num)) (d.of_int (pos i)) j res
        ≡ ok (last_quotient n i j res)
  unfolding float_rounds
  float_rounds-last_quotient zero n i num top j res c e h k l = absurd (omega arith)
  float_rounds-last_quotient (suc fuel) zero i num top j res c e h k l =
      rw (c.compares i num k h, ge→ltb i num (omega arith)) refl
  float_rounds-last_quotient (suc fuel) (suc n) i num top j res c e h k l =
      rw (c.compares i num k h, lt→ltb i num (omega arith), c.counts i (omega arith))
        (float_rounds-last_quotient fuel n (i + 1) num top _ _ c (omega arith) h (omega arith)
          (omega arith))

  -- Where a `double` counts exactly up to `num` and to 2, `do_simple_float_opern` ends after
  -- `num - 2` rounds with the quotient of the last one.
  pub do_simple_float_opern-last_quotient :
      (fuel num top : ℕ)
      → CountsTo d top
      → 2 ≤ top
      → num ≤ top
      → num < fuel
      → do_simple_float_opern fuel num
        ≡ ok (last_quotient (num - 2) 2 (d.of_int (pos 10000)) (d.of_int (pos 0)))
  unfolding do_simple_float_opern
  do_simple_float_opern-last_quotient fuel num top c h k l =
      float_rounds-last_quotient fuel (num - 2) 2 num top _ _ c refl k h (omega arith)

rem_zero : (n : ℕ) → 0 < n → rem_long (pos 0) n ≡ ok (pos 0)
unfolding rem_long quot ◌*ℤ◌ ◌-ℤ◌
rem_zero zero h = absurd (omega arith)
rem_zero (suc n) h = ground arith

add_zero : add_long (pos 0) (pos 0) ≡ ok (pos 0)
unfolding add_long ◌+ℤ◌
add_zero = refl

add_rounds-zero : (num n : ℕ) → n ≤ num → add_rounds num n (pos 0) ≡ ok (pos 0)
unfolding add_rounds
add_rounds-zero num zero h = refl
add_rounds-zero num (suc n) h =
    rw (rem_zero num (omega arith), add_zero) (add_rounds-zero num n (omega arith))

-- `add_n_numbers` adds nothing: its total starts at zero and only grows by its own remainder, so
-- that it returns zero for every number.
pub add_n_numbers-zero : (num : ℕ) → add_n_numbers num ≡ ok (pos 0)
unfolding add_n_numbers
add_n_numbers-zero num = add_rounds-zero num num (omega arith)
