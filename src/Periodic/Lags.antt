-- ===== src/Periodic/Lags.antt =====
-- What a run of the timer that succeeds measures: how late each signal came.
use rtmb.Periodic.Times.{start_ns, period_ns, mul_ok, sub_ok, add_ok}
use rtmb.Clock.Difference.{IsTime}
use mathlib.Core.Path.{subst}
use mathlib.Core.List.{append-nil, append_assoc}
use rtmb.Config.Readings.{add_entry-Holds, Fit-append, Fit, Holds}
use rtmb.Result.{TestResults}
use rtmb.Result.Sorted.{Rearranges}
use rtmb.Double.{Double}
use rtmb.Periodic.Waits.{wait_loop-IsDone, IsDone, gathered, readings_of}
use rtmb.Long.{mul_long, add_long, long_bound}
use rtmb.Periodic.{add_results, add_lags, epoch, rem, block, read_time, Events, Attempt, do_run}
use rtmb.Clock.{billion, convert_time_to_nsec, TimeSpec}
use rtmb.Base.Int.{quot, success, ℤ, ◌-ℤ◌, pos}
use rtmb.Base.{
  ◌>>=◌, ◌^◌, Run, length-append, ◌*◌, out_of_bounds, fault, none, returns, ge→ltb,
  length-replicate, replicate, sym, Returns-bind, ap, ◌∙◌, get_elem?, Returns, length, ◌++◌, take,
  ok, arith, ◌≡◌, ◌<◌, ◌+◌, ℕ, List, true, some, suc, zero, refl, [], ◌∷◌,
}

-- The first event is due at `due`, each further one `per` later; how late they came at `times`.
abbrev pub lags : ℕ → ℕ → List ℕ → List ℤ
lags due per [] = []
lags due per (t ∷ times) = (pos t -ℤ pos due) ∷ lags (due + per) per times

-- The readings are these numbers of nanoseconds.
pub data AreAt : List TimeSpec → List ℕ → Type 0 where
  at_end : AreAt [] []
  at_next :
      {t : TimeSpec} {ts : List TimeSpec} {ns : ℕ} {nss : List ℕ}
      → convert_time_to_nsec t ≡ ok (pos ns)
      → ns < long_bound
      → AreAt ts nss
      → AreAt (t ∷ ts) (ns ∷ nss)

take_nil : (n : ℕ) → ◌≡◌ {A = List TimeSpec} (take n []) []
take_nil zero = refl
take_nil (suc n) = refl

get_elem?-middle :
    (xs ys : List TimeSpec) (y : TimeSpec) → get_elem? (xs ++ y ∷ ys) (length xs) ≡ some y
get_elem?-middle [] ys y = refl
get_elem?-middle (x ∷ xs) ys y = get_elem?-middle xs ys y

read_time-append :
    (times xs ys : List TimeSpec) (y : TimeSpec) (i : ℕ)
    → times ≡ xs ++ y ∷ ys
    → i ≡ length xs
    → read_time (block times) i ≡ ok y
read_time-append times xs ys y i e e' =
    ap (λ o. elim o [ none ↦ fault out_of_bounds | some t ↦ ok t ])
      (ap (λ l. get_elem? l i) e ∙ ap (get_elem? (xs ++ y ∷ ys)) e' ∙ get_elem?-middle xs ys y)

-- A timer that is set, with the start `st` and the signals of `waits`.
abbrev pub fires : TimeSpec → (ℕ → List TimeSpec) → Attempt
fires st waits = record {
  handler_set = true;
  start = some st;
  timer_made = true;
  timer_set = true;
  signals = readings_of waits;
}

do_run-IsDone :
    (time_accuracy sec nsecs : ℤ) (st : TimeSpec) (waits : ℕ → List TimeSpec)
    (m fuel n sub_iters : ℕ) (s : Events)
    → add_long st.tv_sec (pos 5) ≡ ok sec
    → mul_long time_accuracy (pos sub_iters) ≡ ok nsecs
    → n < length (gathered waits 0 m)
    → m < fuel
    → Returns
        (λ o.
          (o.0 ≡ success)
          × IsDone n
              (record { tv_sec = sec; tv_nsec = pos 0 })
              (record { tv_sec = quot nsecs billion; tv_nsec = rem nsecs billion })
              (take n (gathered waits 0 m))
              (o.1))
        (do_run time_accuracy (fires st waits) fuel n sub_iters s)
unfolding do_run
do_run-IsDone time_accuracy sec nsecs st waits m fuel n sub_iters s e e' lt enough =
    rw (e, e')
      (Returns-bind
        (wait_loop-IsDone n (record { tv_sec = sec; tv_nsec = pos 0 })
          (record { tv_sec = quot nsecs billion; tv_nsec = rem nsecs billion }) waits m fuel 0 [] _
          (record {
            to_fire = refl;
            same_start = refl;
            same_period = refl;
            fired = ap length (sym (take_nil n));
            rest = replicate n epoch;
            written = ap (λ l. block (l ++ replicate n epoch)) (sym (take_nil n));
            room = omega (arith, ap length (take_nil n), length-replicate {0} n epoch);
            finished = sym (ge→ltb n 0 (omega arith));
          })
          lt enough)
        λ s' is. returns (refl, is))

-- The events before the last are due before it.
due_below : (due per k : ℕ) → due + suc k * per < long_bound → due < long_bound
due_below due per k h = omega arith

next_below : (due per k : ℕ) → due + suc k * per < long_bound → due + per < long_bound
next_below due per k h = grind arith

rest_below : (due per k : ℕ) → due + suc k * per < long_bound → due + per + k * per < long_bound
rest_below due per k h = grind arith

module _ {F : Type 0} ⦃d : Double F⦄ (qsort : (ℤ → ℤ → ℤ) → List ℤ → List ℤ) where
  -- An attempt of the loop of `periodic_event` up to `check_results`.
  unfoldable pub run_then_add :
      ℤ → Attempt → ℕ → ℕ → ℕ → Events → TestResults F → Run (ℤ × TestResults F)
  run_then_add time_accuracy a fuel n sub_iters s r =
      do_run time_accuracy a fuel n sub_iters s >>= λ run.
      add_results qsort n (run.1) r >>= λ r. ok (run.0, r)

module _ {F : Type 0} ⦃d : Double F⦄ (qsort : (ℤ → ℤ → ℤ) → List ℤ → List ℤ) (q : Rearranges qsort)
    (b : ℕ) where
  add_lags-Holds :
      (total i due per : ℕ) (nss : List ℕ) (ts earlier times : List TimeSpec) (before : List ℤ)
      (r : TestResults F)
      → AreAt ts nss
      → times ≡ earlier ++ ts
      → i ≡ length earlier
      → due + length nss * per < long_bound
      → Holds total before r
      → length before + length nss ≡ total
      → Fit b (before ++ lags due per nss)
      → Returns
          (Holds total (before ++ lags due per nss))
          (add_lags qsort (length nss) i (pos per) (pos due) (block times) r)
  unfolding add_lags
  add_lags-Holds total i due per [] ts earlier times before r at_end e e' small is all fit =
      returns (subst (λ l. Holds total l r) (sym (append-nil before)) is)
  add_lags-Holds total i due per (ns ∷ nss) [] earlier times before r x e e' small is all fit =
      elim x [ ]
  add_lags-Holds total i due per (ns ∷ nss) (t ∷ ts) earlier times before r (at_next c below more) e
        e' small is all fit =
      let late = pos ns -ℤ pos due in
      let assoc : (before ++ late ∷ []) ++ lags (due + per) per nss
          ≡ before ++ late ∷ lags (due + per) per nss =
        append_assoc before (late ∷ []) (lags (due + per) per nss) in
      let fit' : Fit b ((before ++ late ∷ []) ++ lags (due + per) per nss) =
        subst (Fit b) (sym assoc) fit in
      let fit1 = Fit-append b (before ++ late ∷ []) (lags (due + per) per nss) fit' in
      rw
        (
          read_time-append times earlier ts t i e e',
          c,
          sub_ok ns due below (due_below due per (length nss) small),
          add_ok due per (next_below due per (length nss) small),
        )
        (Returns-bind (add_entry-Holds qsort q b total before late r is (omega arith) fit1)
          λ r' is'.
            subst
              (λ l.
                Returns (Holds total l) (
                  add_lags qsort (length nss) (i + 1) (pos per) (pos (due + per)) (block times) r'))
              assoc
              (add_lags-Holds total (i + 1) (due + per) per nss ts (earlier ++ t ∷ []) times
                (before ++ late ∷ []) r' more (e ∙ sym (append_assoc earlier (t ∷ []) ts))
                (omega (arith, length-append {0} earlier (t ∷ [])))
                (rest_below due per (length nss) small) is'
                (omega (arith, length-append {0} before (late ∷ []))) fit'))

  -- The timer can be set `s` seconds and `ns` nanoseconds after the start of the clock, less than
  -- 2 ^ 33 seconds after it, and the sleep time of the table, times `sub_iters`, is less too. The first `m` waits
  -- bring more than `n` signals, and the loop has fuel for them. The first `n` readings are the
  -- times `nss`, and the times by which they are late fit into 64 bits with their squares. `qsort`
  -- rearranges an array. Then
  -- `do_run` succeeds, and `add_results` enters exactly by how much each of the first `n` signals is late,
  -- against a first event five whole seconds after the start and one more in each period, whatever
  -- waits they came in.
  pub do_run-lags :
      (acc s ns m fuel n sub_iters : ℕ) (time_accuracy : ℤ) (st : TimeSpec)
      (waits : ℕ → List TimeSpec) (nss : List ℕ) (old : Events) (r : TestResults F)
      → IsTime st s ns
      → s + 5 < 2 ^ 33
      → time_accuracy ≡ pos acc
      → acc * sub_iters < billion * 2 ^ 33
      → n < length (gathered waits 0 m)
      → m < fuel
      → n ≡ length nss
      → AreAt (take n (gathered waits 0 m)) nss
      → (s + 5) * billion + n * (acc * sub_iters) < long_bound
      → Fit b (lags ((s + 5) * billion) (acc * sub_iters) nss)
      → Holds n [] r
      → Returns
          (λ o. (o.0 ≡ success) × Holds n (lags ((s + 5) * billion) (acc * sub_iters) nss) (o.1))
          (run_then_add qsort time_accuracy (fires st waits) fuel n sub_iters old r)
  unfolding run_then_add add_results
  do_run-lags acc s ns m fuel n sub_iters time_accuracy st waits nss old r is small e small' lt
        enough all at fits fit holds =
      Returns-bind
        (do_run-IsDone time_accuracy (pos (s + 5)) (pos (acc * sub_iters)) st waits m fuel n
          sub_iters old (ap (λ x. add_long x (pos 5)) is.sec ∙ add_ok s 5 (omega arith))
          (ap (λ x. mul_long x (pos sub_iters)) e ∙ mul_ok acc sub_iters (omega arith)) lt enough)
        λ o (succeeded, done).
          rw
            (
              done.same_period,
              done.same_start,
              period_ns (acc * sub_iters) small',
              start_ns (s + 5) small,
              done.written,
              all,
            )
            (Returns-bind
              (add_lags-Holds (length nss) 0 ((s + 5) * billion) (acc * sub_iters) nss
                (take (length nss) (gathered waits 0 m)) [] (take (length nss) (gathered waits 0 m))
                [] r (subst (λ k. AreAt (take k (gathered waits 0 m)) nss) all at) refl refl
                (subst (λ k. (s + 5) * billion + k * (acc * sub_iters) < long_bound) all fits)
                (subst (λ k. Holds k [] r) all holds) (omega arith) fit)
              λ r' h. returns (succeeded, h))
