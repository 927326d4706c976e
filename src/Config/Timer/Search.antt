-- ===== src/Config/Timer/Search.antt =====
-- The binary search of `timer_config` finds the least time to sleep that passes.
use mathlib.Core.Bool.{true≢false}
use rtmb.Config.{int_bound}
use rtmb.Config.Timer.{bisect}
use rtmb.Base.Int.{◌+ℤ◌, ◌≤ℤ◌, neg_part, +ℤ_parts, ◌<ℤ◌, -ℤ_parts, ℤ, pos_part, ◌-ℤ◌, negsuc, pos}
use rtmb.Base.{
  sym, ◌∙◌, Returns-bind, lt→ltb, le→leb, gt→leb, ◌/◌, returns, dec_lt, ◌<◌, Bool-cases, ◌≡◌, ◌+◌,
  arith, Returns, ◌≤◌, Bool, Run, ℕ, inr, inl, false, true, suc, zero,
}

predecessor_upper : (m : ℕ) → pos_part (pos m -ℤ pos 1) ≤ m
unfolding ◌-ℤ◌
predecessor_upper m = ground arith

module _ {S : Type 0} (probe : ℕ → S → Run (Bool × S)) (keep : ℕ → S → Run S) (kept : S → ℕ)
    (passes : ℕ → Bool) where
  -- A measurement of the same amount always has the same outcome, and leaves the kept amount.
  abbrev pub Repeatable : Type 0
  Repeatable =
      (q : ℕ) (s : S)
      → Returns (λ (passed, s'). (passed ≡ passes q) × (kept s' ≡ kept s)) (probe q s)

  abbrev pub Keeps : Type 0
  Keeps = (q : ℕ) (s : S) → Returns (λ s'. kept s' ≡ q) (keep q s)

  -- With an amount every larger one passes.
  abbrev pub Monotone : Type 0
  Monotone = (p q : ℕ) → p ≤ q → passes p ≡ true → passes q ≡ true

  pub record IsLeast (k : ℕ) : Type 0 where
    pub does : passes k ≡ true
    pub smaller : (q : ℕ) → q < k → passes q ≡ false

  -- The state of the search: what lies below `start` fails, and the kept amount passes and is the
  -- end of the range or the next one behind it.
  record Searching (start : ℕ) (stop : ℤ) (k : ℕ) : Type 0 where
    does : passes k ≡ true
    below : (q : ℕ) → q < start → passes q ≡ false
    above : start ≤ k
    end : stop ≤ℤ pos k
    next : pos k ≤ℤ (stop +ℤ pos 1)

  -- The kept amount is the least one when the range is empty.
  found : (start k : ℕ) (stop : ℤ) → stop <ℤ pos start → Searching start stop k → IsLeast k
  found start k stop h s = record {
    does = s.does;
    smaller = λ q lt. s.below q (omega (arith, s.next, +ℤ_parts stop (pos 1)));
  }

  after_pass :
      (start mid k : ℕ) (stop : ℤ)
      → start ≤ mid
      → passes mid ≡ true
      → Searching start stop k
      → Searching start (pos mid -ℤ pos 1) mid
  after_pass start mid k stop le p s = record {
    does = p;
    below = s.below;
    above = le;
    end = omega (arith, -ℤ_parts (pos mid) (pos 1));
    next = omega (arith, -ℤ_parts (pos mid) (pos 1), +ℤ_parts (pos mid -ℤ pos 1) (pos 1));
  }

  -- An amount below one that fails fails too.
  fails_below : Monotone → (p q : ℕ) → p ≤ q → passes q ≡ false → passes p ≡ false
  fails_below mono p q le f = elim (Bool-cases (passes p)) [
    | inl yes' ↦ absurd (true≢false (sym (mono p q le yes') ∙ f))
    | inr no' ↦ no'
  ]

  passes_above : Monotone → (p q : ℕ) → passes p ≡ false → passes q ≡ true → p < q
  passes_above mono p q f t = elim (dec_lt p q) [
    | yes lt ↦ lt
    | no ge ↦ absurd (true≢false (sym (mono q p (omega arith) t) ∙ f))
  ]

  after_failure :
      Monotone
      → (start mid k : ℕ) (stop : ℤ) → passes mid ≡ false
      → Searching start stop k
      → Searching (mid + 1) stop k
  after_failure mono start mid k stop f s = record {
    does = s.does;
    below = λ q lt. fails_below mono q mid (omega arith) f;
    above = omega (arith, passes_above mono mid k f s.does);
    end = s.end;
    next = s.next;
  }

  bisect-Searching :
      Repeatable
      → Keeps
      → Monotone
      → (fuel start k : ℕ) (stop : ℤ) (s : S) → pos_part stop + 1 < fuel + start + neg_part stop
      → 0 < fuel
      → pos_part stop + pos_part stop < int_bound
      → kept s ≡ k
      → Searching start stop k
      → Returns (λ s'. IsLeast (kept s')) (bisect probe keep fuel start stop s)
  unfolding bisect
  bisect-Searching rep keeps mono zero start k stop s enough fuelled small e is =
      absurd (omega arith)
  bisect-Searching rep keeps mono (suc fuel) start k (negsuc stop) s enough fuelled small e is =
      returns (rw e (found start k (negsuc stop) (omega arith) is))
  bisect-Searching rep keeps mono (suc fuel) start k (pos stop) s enough fuelled small e is =
      let mid = (start + stop) / 2 in
      elim (dec_lt stop start) [
        | yes empty ↦
            rw (gt→leb start stop empty)
              (returns (rw e (found start k (pos stop) (omega arith) is)))
        | no ge ↦
            rw (le→leb start stop (omega arith), lt→ltb (start + stop) int_bound (omega arith))
              (Returns-bind (rep mid s) λ (passed, s1) (p, same). elim (Bool-cases (passes mid)) [
                | inl pass ↦
                    rw (p, pass)
                      (Returns-bind (keeps mid s1) λ s2 kept2.
                        bisect-Searching rep keeps mono fuel start mid (pos mid -ℤ pos 1) s2
                          (omega (arith, -ℤ_parts (pos mid) (pos 1))) (omega arith)
                          (omega (arith, predecessor_upper mid)) kept2
                          (after_pass start mid k (pos stop) (omega arith) pass is))
                | inr fail ↦
                    rw (p, fail)
                      (bisect-Searching rep keeps mono fuel (mid + 1) k (pos stop) s1 (omega arith)
                        (omega arith) small (same ∙ e)
                        (after_failure mono start mid k (pos stop) fail is))
              ])
      ]

  -- A search from `start` to `stop`, whose sum is an `int`, where measurements are repeatable, where
  -- with an amount every larger one passes, `stop` passes and is kept at first, and nothing below
  -- `start` passes: it ends within `stop + 2 - start` rounds, and keeps the least amount that
  -- passes.
  pub bisect-IsLeast :
      Repeatable
      → Keeps
      → Monotone
      → (fuel start stop : ℕ) (s : S) → stop + 1 < fuel + start
      → start ≤ stop
      → stop + stop < int_bound
      → kept s ≡ stop
      → passes stop ≡ true
      → ((q : ℕ) → q < start → passes q ≡ false)
      → Returns (λ s'. IsLeast (kept s')) (bisect probe keep fuel start (pos stop) s)
  bisect-IsLeast rep keeps mono fuel start stop s enough le small e pass below =
      bisect-Searching rep keeps mono fuel start stop (pos stop) s (omega arith) (omega arith) small
        e
        (record {
          does = pass;
          below = below;
          above = le;
          end = omega arith;
          next = omega (arith, +ℤ_parts (pos stop) (pos 1));
        })
