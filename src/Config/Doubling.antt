-- ===== src/Config/Doubling.antt =====
-- The loop that measures again ends with the first round that is accepted or exhausts the attempts,
-- with the amount doubled once for every round before.
use rtmb.Result.{free_chain, TestResults}
use rtmb.Config.Retry.{doubled}
use rtmb.Double.{Double}
use rtmb.Config.{int_bound, retry, double_int, Verdict, again, exhausted, accepted}
use rtmb.Base.{
  lt→ltb, ok, ◌≡◌, arith, ◌*◌, Option, ◌<◌, Run, ℕ, Bool, false, true, some, suc, zero, refl,
}

-- The two verdicts that end the loop.
abbrev pub ending : Bool → Verdict
ending true = accepted
ending false = exhausted

doubled_below : (k a b : ℕ) → doubled k a < b → a < b
doubled_below zero a b h = h
doubled_below (suc k) a b h = let larger : a * 2 < b = doubled_below k (a * 2) b h in omega arith

module _ {F : Type 0} ⦃d : Double F⦄
    (measure : ℕ → ℕ → TestResults F → Run (Option (TestResults F × ℕ)))
    (judged : ℕ → TestResults F → Run (Verdict × TestResults F)) where
  -- `k` rounds that are not accepted and a last one, from an amount, a number of failures, the calls
  -- of the clock and a result on; then whether the last one is accepted, its result and the calls.
  pub data Rounds : ℕ → ℕ → ℕ → ℕ → TestResults F → Bool → TestResults F → ℕ → Type 0 where
    last_round :
        {amount count n n' : ℕ} {r r' r'' : TestResults F} (b : Bool)
        → measure amount n r ≡ ok (some (r', n'))
        → judged count r' ≡ ok (ending b, r'')
        → Rounds 0 amount count n r b r'' n'
    failed_round :
        {k amount count count' n n' m : ℕ} {r r' r'' last : TestResults F} {b : Bool}
        → measure amount n r ≡ ok (some (r', n'))
        → judged count r' ≡ ok (again count', r'')
        → Rounds k (amount * 2) count' n' (record r'' { num_entries = 0 }) b last m
        → Rounds (suc k) amount count n r b last m

  double_int-small : (k num : ℕ) → doubled k (num * 2) < int_bound → double_int num ≡ ok (num * 2)
  unfolding double_int
  double_int-small k num h =
      rw (lt→ltb (num * 2) int_bound (doubled_below k (num * 2) int_bound h)) refl

  -- When `k` rounds are neither accepted nor exhaust the attempts and the next one does, and the
  -- amount doubled `k` times is an `int`, the loop returns what this last round measured, with the
  -- amount doubled `k` times, whatever more fuel than rounds it has.
  pub retry-Rounds :
      (k fuel amount count n m : ℕ) (r last : TestResults F) (b : Bool)
      → Rounds k amount count n r b last m
      → doubled k amount < int_bound
      → k < fuel
      → retry measure double_int judged fuel amount count n r
        ≡ ok (some (record { passed = b; amount = doubled k amount; result = last; calls = m }))
  unfolding retry free_chain
  retry-Rounds k zero amount count n m r last b rounds h lt = absurd (omega arith)
  retry-Rounds zero (suc fuel) amount count n m r last true (last_round true e e') h lt =
      rw (e, e') refl
  retry-Rounds zero (suc fuel) amount count n m r last false (last_round false e e') h lt =
      rw (e, e') refl
  retry-Rounds (suc k) (suc fuel) amount count n m r last b (failed_round e e' more) h lt =
      rw (e, e', double_int-small k amount h)
        (retry-Rounds k fuel (amount * 2) _ _ m _ last b more h (omega arith))
