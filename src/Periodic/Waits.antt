-- ===== src/Periodic/Waits.antt =====
-- The loop that waits for the signals of the timer, and a run of the timer up to the measured times.
use rtmb.Periodic.Fired.{take-append_le, timer_expiry_handler-Fired, Fired}
use rtmb.Periodic.{block, wait_loop, deliver, Events}
use rtmb.Clock.{TimeSpec}
use mathlib.Core.Path.{subst}
use mathlib.Core.List.{append-nil, append_assoc}
use rtmb.Base.{
  Bool, ◌>>=◌, ok, length-take, ap, refl, ltb→lt, ltb, Bool-cases, lt→ltb, ◌∙◌, length-append,
  arith, Returns-bind, take, sym, returns, length, ◌<◌, Returns, ◌≡◌, ◌+◌, map, ◌++◌, Option, List,
  ℕ, inr, inl, true, some, suc, zero, [], ◌∷◌, false,
}

-- The readings by the signals of `m` waits from the k-th on.
abbrev pub gathered : (ℕ → List TimeSpec) → ℕ → ℕ → List TimeSpec
gathered waits k zero = []
gathered waits k (suc m) = waits k ++ gathered waits (k + 1) m

-- The signals of every wait, each with a reading of the clock.
abbrev pub readings_of : (ℕ → List TimeSpec) → ℕ → List (Option TimeSpec)
readings_of waits k = map some (waits k)

length_zero : (l : List TimeSpec) → length l ≡ 0 → l ≡ []
length_zero [] h = refl
length_zero (x ∷ l) h = absurd (omega arith)

wait_done :
    (signals : ℕ → List (Option TimeSpec)) (fuel k : ℕ) (s : Events)
    → s.done ≡ true
    → wait_loop signals (suc fuel) k s ≡ ok s
unfolding wait_loop
wait_done signals fuel k s h =
    ap
      (λ (b : Bool). elim b [
        | true ↦ ok s
        | false ↦ deliver (signals k) s >>= λ s. wait_loop signals fuel (k + 1) s
      ])
      h

wait_more :
    (signals : ℕ → List (Option TimeSpec)) (fuel k : ℕ) (s : Events)
    → s.done ≡ false
    → wait_loop signals (suc fuel) k s
      ≡ (deliver (signals k) s >>= λ s. wait_loop signals fuel (k + 1) s)
unfolding wait_loop
wait_more signals fuel k s h =
    ap
      (λ (b : Bool). elim b [
        | true ↦ ok s
        | false ↦ deliver (signals k) s >>= λ s. wait_loop signals fuel (k + 1) s
      ])
      h

module _ (n : ℕ) (start period : TimeSpec) where
  deliver-Fired :
      (before ts : List TimeSpec) (s : Events)
      → Fired n start period before s
      → Returns (Fired n start period (before ++ ts)) (deliver (map some ts) s)
  unfolding deliver
  deliver-Fired before [] s is =
      returns (subst (λ l. Fired n start period l s) (sym (append-nil before)) is)
  deliver-Fired before (t ∷ ts) s is =
      Returns-bind (timer_expiry_handler-Fired n start period before t s is) λ s' is'.
        subst (λ l. Returns (Fired n start period l) (deliver (map some ts) s'))
          (append_assoc before (t ∷ []) ts) (deliver-Fired (before ++ t ∷ []) ts s' is')

  -- All `n` events are written down, and nothing else has changed.
  pub record IsDone (times : List TimeSpec) (s : Events) : Type 0 where
    pub over : s.done ≡ true
    pub written : s.dispatch_times ≡ block times
    pub same_start : s.start_time ≡ start
    pub same_period : s.period ≡ period

  Fired-IsDone :
      (before later : List TimeSpec) (s : Events)
      → Fired n start period before s
      → n < length before
      → IsDone (take n (before ++ later)) s
  Fired-IsDone before later s is lt =
      let none_left : is.rest ≡ [] =
        length_zero is.rest (omega (arith, is.room, length-take {0} n before (omega arith))) in
      record {
        over = is.finished ∙ lt→ltb n (length before) lt;
        written =
            is.written
            ∙ ap (λ l. block (take n before ++ l)) none_left
            ∙ ap block
                (append-nil (take n before) ∙ sym (take-append_le n before later (omega arith)));
        same_start = is.same_start;
        same_period = is.same_period;
      }

  pub wait_loop-IsDone :
      (waits : ℕ → List TimeSpec) (m fuel k : ℕ) (before : List TimeSpec) (s : Events)
      → Fired n start period before s
      → n < length (before ++ gathered waits k m)
      → m < fuel
      → Returns
          (IsDone (take n (before ++ gathered waits k m)))
          (wait_loop (readings_of waits) fuel k s)
  unfolding wait_loop
  wait_loop-IsDone waits m zero k before s is lt enough = absurd (omega arith)
  wait_loop-IsDone waits zero (suc fuel) k before s is lt enough =
      let lt' : n < length before = omega (arith, length-append {0} before []) in
      rw (wait_done (readings_of waits) fuel k s (is.finished ∙ lt→ltb n (length before) lt'))
        (returns (Fired-IsDone before [] s is lt'))
  wait_loop-IsDone waits (suc m) (suc fuel) k before s is lt enough =
      elim (Bool-cases (ltb n (length before))) [
        | inl over ↦ rw (wait_done (readings_of waits) fuel k s (is.finished ∙ over)) (
            returns
              (Fired-IsDone before (gathered waits k (suc m)) s is (ltb→lt n (length before) over)))
        | inr under ↦
            let assoc = append_assoc before (waits k) (gathered waits (k + 1) m) in
            rw (wait_more (readings_of waits) fuel k s (is.finished ∙ under)) (
              Returns-bind (deliver-Fired before (waits k) s is) λ s' is'.
                subst
                  (λ l. Returns (IsDone (take n l)) (wait_loop (readings_of waits) fuel (k + 1) s'))
                  assoc
                  (wait_loop-IsDone waits m fuel (k + 1) (before ++ waits k) s' is'
                    (omega (arith, ap length assoc)) (omega arith)))
      ]
