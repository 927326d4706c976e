-- ===== src/Periodic/Fired.antt =====
-- What the handler of the timer writes down, whatever signals come during which wait.
use rtmb.Periodic.{write_time, block, timer_expiry_handler, Events}
use rtmb.Clock.{TimeSpec}
use rtmb.Base.{
  ge→ltb, sym, ◌∙◌, ◌>>=◌, ◌⊎◌, ◌<◌, ltb→lt, true, length-append, returns, lt→ltb, ◌+◌, ok, ltb,
  arith, ap, Bool-cases, ◌++◌, take, Returns, ◌≤◌, ◌≡◌, set, length, ℕ, List, inr, inl, some, suc,
  zero, refl, [], ◌∷◌, false,
}

pub take-append_le : (n : ℕ) (xs ys : List TimeSpec) → n ≤ length xs → take n (xs ++ ys) ≡ take n xs
take-append_le zero xs ys h = refl
take-append_le (suc n) [] ys h = absurd (omega arith)
take-append_le (suc n) (x ∷ xs) ys h = ap (◌∷◌ x) (take-append_le n xs ys (omega arith))

take-ge : (n : ℕ) (xs : List TimeSpec) → length xs ≤ n → take n xs ≡ xs
take-ge zero [] h = refl
take-ge zero (x ∷ xs) h = absurd (omega arith)
take-ge (suc n) [] h = refl
take-ge (suc n) (x ∷ xs) h = ap (◌∷◌ x) (take-ge n xs (omega arith))

-- The signals whose readings are `ts` have come since the timer was set for `n` events: the first
-- `n` readings are written down, and one more signal has ended the wait.
pub record Fired (n : ℕ) (start period : TimeSpec) (ts : List TimeSpec) (s : Events) : Type 0 where
  pub to_fire : s.events_to_fire ≡ n
  pub same_start : s.start_time ≡ start
  pub same_period : s.period ≡ period
  pub fired : s.events_fired ≡ length (take n ts)
  pub rest : List TimeSpec
  pub written : s.dispatch_times ≡ block (take n ts ++ rest)
  pub room : length (take n ts) + length rest ≡ n
  pub finished : s.done ≡ ltb n (length ts)

set-append :
    (xs ys : List TimeSpec) (y t : TimeSpec)
    → set (xs ++ y ∷ ys) (length xs) t ≡ (xs ++ t ∷ []) ++ ys
set-append [] ys y t = refl
set-append (x ∷ xs) ys y t = ap (◌∷◌ x) (set-append xs ys y t)

write_time-append :
    (times xs ys : List TimeSpec) (y t : TimeSpec) (i : ℕ)
    → i ≡ length xs
    → times ≡ xs ++ y ∷ ys
    → write_time (block times) i t ≡ ok (block ((xs ++ t ∷ []) ++ ys))
write_time-append times xs ys y t i e e' =
    rw
      (
        e,
        e',
        lt→ltb (length xs) (length (xs ++ y ∷ ys)) (omega (arith, length-append {0} xs (y ∷ ys))),
        set-append xs ys y t,
      )
      refl

nonempty : (l : List TimeSpec) → 0 < length l → (y : TimeSpec) × (ys : List TimeSpec) × (l ≡ y ∷ ys)
nonempty [] h = absurd (omega arith)
nonempty (y ∷ ys) h = (y, ys, refl)

ltb-false_ge : (a b : ℕ) → ltb a b ≡ false → b ≤ a
ltb-false_ge a b h = ground arith

module _ (n : ℕ) (start period : TimeSpec) where
  writes :
      (ts : List TimeSpec) (t y : TimeSpec) (ys : List TimeSpec) (s : Events)
      (is : Fired n start period ts s)
      → is.rest ≡ y ∷ ys
      → length ts < n
      → Returns (Fired n start period (ts ++ t ∷ [])) (
          write_time s.dispatch_times s.events_fired t >>= λ times.
          ok (record s { dispatch_times = times; events_fired = s.events_fired + 1; done = false }))
  writes ts t y ys s is e lt =
      let whole : take n ts ≡ ts = take-ge n ts (omega arith) in
      let longer : length (ts ++ t ∷ []) ≡ length ts + 1 =
        omega (arith, length-append {0} ts (t ∷ [])) in
      let whole' : take n (ts ++ t ∷ []) ≡ ts ++ t ∷ [] = take-ge n (ts ++ t ∷ []) (omega arith) in
      let stored : write_time s.dispatch_times s.events_fired t
          ≡ ok (block ((ts ++ t ∷ []) ++ ys)) =
        ap (λ b. write_time b s.events_fired t) is.written
        ∙ write_time-append (take n ts ++ is.rest) ts ys y t s.events_fired
            (is.fired ∙ ap length whole) (ap (λ l. l ++ is.rest) whole ∙ ap (◌++◌ ts) e) in
      rw stored (
        returns (record {
          to_fire = is.to_fire;
          same_start = is.same_start;
          same_period = is.same_period;
          fired = omega (arith, is.fired, ap length whole, ap length whole');
          rest = ys;
          written = ap (λ l. block (l ++ ys)) (sym whole');
          room = omega (arith, is.room, ap length whole, ap length whole', ap length e);
          finished = sym (ge→ltb n (length (ts ++ t ∷ [])) (omega arith));
        }))

  ready :
      (ts : List TimeSpec) (t : TimeSpec) (s : Events)
      → Fired n start period ts s
      → ltb n (length ts) ≡ false
      → (ltb s.events_fired s.events_to_fire ≡ true) ⊎ (ltb s.events_fired s.events_to_fire ≡ false)
      → Returns (Fired n start period (ts ++ t ∷ [])) (timer_expiry_handler (some t) s)
  unfolding timer_expiry_handler
  ready ts t s is under (inl early) =
      let whole : take n ts ≡ ts = take-ge n ts (ltb-false_ge n (length ts) under) in
      let lt : length ts < n = omega (
        arith,
        ltb→lt s.events_fired s.events_to_fire early,
        is.fired,
        is.to_fire,
        ap length whole,
      ) in
      let (y, ys, e) = nonempty is.rest (omega (arith, is.room, ap length whole)) in
      simp (is.finished ∙ under, early) (writes ts t y ys s is e lt)
  ready ts t s is under (inr late) =
      let whole : take n ts ≡ ts = take-ge n ts (ltb-false_ge n (length ts) under) in
      let all : length ts ≡ n = omega (
        arith,
        ltb-false_ge n (length ts) under,
        ltb-false_ge s.events_fired s.events_to_fire late,
        is.fired,
        is.to_fire,
        ap length whole,
      ) in
      let e = take-append_le n ts (t ∷ []) (omega arith) in
      simp (is.finished ∙ under, late)
        (returns (record {
          to_fire = is.to_fire;
          same_start = is.same_start;
          same_period = is.same_period;
          fired = is.fired ∙ ap length (sym e);
          rest = is.rest;
          written = is.written ∙ ap (λ l. block (l ++ is.rest)) (sym e);
          room = omega (arith, is.room, ap length e);
          finished =
              sym (lt→ltb n (length (ts ++ t ∷ [])) (omega (arith, length-append {0} ts (t ∷ []))));
        }))

  pub timer_expiry_handler-Fired :
      (ts : List TimeSpec) (t : TimeSpec) (s : Events)
      → Fired n start period ts s
      → Returns (Fired n start period (ts ++ t ∷ [])) (timer_expiry_handler (some t) s)
  unfolding timer_expiry_handler
  timer_expiry_handler-Fired ts t s is = elim (Bool-cases (ltb n (length ts))) [
    | inl over ↦
        let e = take-append_le n ts (t ∷ []) (omega (arith, ltb→lt n (length ts) over)) in
        rw (is.finished, over)
          (returns (record {
            to_fire = is.to_fire;
            same_start = is.same_start;
            same_period = is.same_period;
            fired = is.fired ∙ ap length (sym e);
            rest = is.rest;
            written = is.written ∙ ap (λ l. block (l ++ is.rest)) (sym e);
            room = omega (arith, is.room, ap length e);
            finished = sym (
                lt→ltb n (length (ts ++ t ∷ []))
                  (omega (arith, ltb→lt n (length ts) over, length-append {0} ts (t ∷ []))));
          }))
    | inr under ↦ ready ts t s is under (Bool-cases (ltb s.events_fired s.events_to_fire))
  ]
