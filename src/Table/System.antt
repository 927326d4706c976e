-- ===== src/Table/System.antt =====
-- `compute_system_scores`: the products over the tests that passed.
use rtmb.Base.{
  arith, ℕ, count, length, map, ◌≡◌, refl, true, Bool-cases, inl, inr, List, [], ◌∷◌, none, some,
  ok, if◌then◌else◌,
}
use rtmb.Base.Int.{pos}
use rtmb.Double.{Double}
use rtmb.Score.{FinalBmTestResult, number}
use rtmb.Table.{
  Slot, ResultTable, executed_tests, times_root, system_products, compute_system_scores,
}

module _ {F : Type 0} where
  -- Every valid slot has its scores.
  abbrev pub IsComplete : ResultTable F → Type 0
  IsComplete [] = Unit {0}
  IsComplete (s ∷ table) =
      (s.valid ≡ true → (f : FinalBmTestResult F) × (s.fbmt ≡ some f)) × IsComplete table

  -- The scores of a slot, if its test ran and passed.
  abbrev pub passed_scores : Slot F → List (FinalBmTestResult F)
  passed_scores s =
      if s.valid
      then elim s.fbmt [ none ↦ [] | some f ↦ if f.test_pass then f ∷ [] else [] ]
      else []

  abbrev pub passed : ResultTable F → List (FinalBmTestResult F)
  passed [] = []
  passed (s ∷ table) = elim (passed_scores s) [ [] ↦ passed table | f ∷ fs ↦ f ∷ passed table ]

  -- The slots whose test ran.
  abbrev pub ran : ResultTable F → ResultTable F
  ran [] = []
  ran (s ∷ table) = if s.valid then s ∷ ran table else ran table

  count-ran : (table : ResultTable F) → count (λ s. s.valid) table ≡ length (ran table)
  count-ran [] = refl
  count-ran (s ∷ table) = elim (Bool-cases s.valid) [
    | inl valid ↦ rw valid (omega (arith, count-ran table))
    | inr unused ↦ rw unused (omega (arith, count-ran table))
  ]

module _ {F : Type 0} ⦃d : Double F⦄ where
  -- The scores above 0.
  abbrev pub positive : List F → List F
  positive [] = []
  positive (x ∷ xs) = if d.lt (d.of_int (pos 0)) x then x ∷ positive xs else positive xs

  -- The product of the powers of the scores, from the first on.
  abbrev pub product_of_powers : F → F → List F → F
  product_of_powers root acc [] = acc
  product_of_powers root acc (x ∷ xs) = product_of_powers root (d.mul acc (d.pow x root)) xs

  -- The geometric mean of the positive scores, over `n` tests.
  abbrev pub geometric_mean : ℕ → List F → F
  geometric_mean n xs =
      product_of_powers (d.div (d.of_int (pos 1)) (d.of_int (pos n))) (d.of_int (pos 1))
        (positive xs)

  abbrev powers : F → F → List F → F
  powers root acc xs = product_of_powers root acc (positive xs)

  powers-times_root :
      (root acc x : F) (xs : List F)
      → powers root (times_root root acc x) xs ≡ powers root acc (x ∷ xs)
  powers-times_root root acc x xs = elim (Bool-cases (d.lt (d.of_int (pos 0)) x)) [
    | inl some_score ↦ rw some_score refl
    | inr no_score ↦ rw no_score refl
  ]

  abbrev pub consistencies : ResultTable F → List F
  consistencies table = map (λ f. f.consistency_test_score) (passed table)

  abbrev pub throughputs : ResultTable F → List F
  throughputs table = map (λ f. f.throughput_test_score) (passed table)

  system_products-powers :
      (root : F) (table : ResultTable F) (c t : F)
      → IsComplete table
      → system_products root table c t
        ≡ ok (powers root c (consistencies table), powers root t (throughputs table))
  unfolding system_products
  system_products-powers root [] c t h = refl
  system_products-powers root (s ∷ table) c t (complete, h) = elim (Bool-cases s.valid) [
    | inl valid ↦
        let (f, e) = complete valid in
        elim (Bool-cases f.test_pass) [
          | inl pass ↦
              rw
                (
                  valid,
                  e,
                  pass,
                  ← powers-times_root root c f.consistency_test_score (consistencies table),
                  ← powers-times_root root t f.throughput_test_score (throughputs table),
                )
                (system_products-powers root table _ _ h)
          | inr fail ↦ rw (valid, e, fail) (system_products-powers root table c t h)
        ]
    | inr unused ↦ rw unused (system_products-powers root table c t h)
  ]

  -- The scores of the system: over as many tests as ran, from the scores of those that passed.
  abbrev pub system_scores : ResultTable F → F × F × F
  system_scores table =
      let c = geometric_mean (length (ran table)) (consistencies table) in
      let t = geometric_mean (length (ran table)) (throughputs table) in
      (c, t, d.pow (d.mul c t) (d.div (d.of_int (pos 1)) (d.of_int (pos 2))))

  -- With scores in every valid slot, `compute_system_scores` returns the products of the roots of
  -- the positive scores of the tests that passed, and the square root of both products. The root is
  -- that of the number of all tests that ran, so a test that failed counts as a factor of one.
  pub compute_system_scores-system_scores :
      (table : ResultTable F)
      → IsComplete table
      → compute_system_scores table ≡ ok (system_scores table)
  unfolding compute_system_scores
  compute_system_scores-system_scores table h =
      rw
        (
          system_products-powers (d.div (number 1) (number (executed_tests table))) table (number 1)
              (number 1) h,
          count-ran table,
        )
        refl
