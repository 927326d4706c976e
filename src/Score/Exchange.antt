-- ===== src/Score/Exchange.antt =====
-- The sort of the medians in `generate_combined_score`.
use rtmb.Base.{
  ℕ, zero, suc, ◌≡◌, ◌∙◌, ap, refl, Bool, true, false, Bool-cases, inl, inr, List, [], ◌∷◌, arith,
  count, length,
}
use rtmb.Double.{Double}
use rtmb.Score.{exchange, exchange_sort}

-- The order that `<` gives on numbers, as it is for every `double` but "not a number".
pub record IsOrder {F : Type 0} (lt : F → F → Bool) : Type 0 where
  pub asymmetric : (x y : F) → lt x y ≡ true → lt y x ≡ false
  pub transitive : (x y z : F) → lt y x ≡ false → lt z y ≡ false → lt z x ≡ false

module _ {F : Type 0} ⦃d : Double F⦄ where
  -- No item is less than `x`.
  abbrev pub NoneBelow : F → List F → Type 0
  NoneBelow x [] = Unit {0}
  NoneBelow x (y ∷ ys) = (d.lt y x ≡ false) × NoneBelow x ys

  abbrev pub IsSorted : List F → Type 0
  IsSorted [] = Unit {0}
  IsSorted (x ∷ xs) = NoneBelow x xs × IsSorted xs

  pub length-exchange : (x : F) (xs : List F) → length ((exchange x xs).1) ≡ length xs
  unfolding exchange
  length-exchange x [] = refl
  length-exchange x (y ∷ ys) = elim (Bool-cases (d.lt y x)) [
    | inl e ↦ rw e (ap suc (length-exchange y ys))
    | inr e ↦ rw e (ap suc (length-exchange x ys))
  ]

  count-exchange :
      (p : F → Bool) (x : F) (xs : List F)
      → count p ((exchange x xs).0 ∷ (exchange x xs).1) ≡ count p (x ∷ xs)
  unfolding exchange
  count-exchange p x [] = refl
  count-exchange p x (y ∷ ys) = elim (Bool-cases (d.lt y x)) [
    | inl e ↦ rw e (omega (arith, count-exchange p y ys))
    | inr e ↦ rw e (omega (arith, count-exchange p x ys))
  ]

  module _ (order : IsOrder d.lt) where
    irreflexive : (x : F) → d.lt x x ≡ false
    irreflexive x = elim (Bool-cases (d.lt x x)) [ inl e ↦ order.asymmetric x x e | inr e ↦ e ]

    -- The item that comes to the front is not above the one that stood there, nor above any other.
    exchange-le : (x : F) (xs : List F) → d.lt x ((exchange x xs).0) ≡ false
    unfolding exchange
    exchange-le x [] = irreflexive x
    exchange-le x (y ∷ ys) = elim (Bool-cases (d.lt y x)) [
      | inl e ↦
          rw e
            (order.transitive ((exchange y ys).0) y x (exchange-le y ys) (order.asymmetric y x e))
      | inr e ↦ rw e (exchange-le x ys)
    ]

    exchange-NoneBelow : (x : F) (xs : List F) → NoneBelow ((exchange x xs).0) ((exchange x xs).1)
    unfolding exchange
    exchange-NoneBelow x [] = tt
    exchange-NoneBelow x (y ∷ ys) = elim (Bool-cases (d.lt y x)) [
      | inl e ↦ rw e (
        order.transitive ((exchange y ys).0) y x (exchange-le y ys) (order.asymmetric y x e),
        exchange-NoneBelow y ys,
      )
      | inr e ↦
          rw e
            (order.transitive ((exchange x ys).0) x y (exchange-le x ys) e, exchange-NoneBelow x ys)
    ]

  count-exchange_sort :
      (p : F → Bool) (n : ℕ) (xs : List F) → count p (exchange_sort n xs) ≡ count p xs
  unfolding exchange_sort
  count-exchange_sort p zero xs = refl
  count-exchange_sort p (suc n) [] = refl
  count-exchange_sort p (suc n) (x ∷ xs) =
      omega (arith, count-exchange p x xs, count-exchange_sort p n ((exchange x xs).1))

  below-count : (x : F) (ys : List F) → NoneBelow x ys → count (λ y. d.lt y x) ys ≡ 0
  below-count x [] h = refl
  below-count x (y ∷ ys) (e, h) = ground (arith, e, below-count x ys h)

  count-below : (x : F) (ys : List F) → count (λ y. d.lt y x) ys ≡ 0 → NoneBelow x ys
  count-below x [] h = tt
  count-below x (y ∷ ys) h = elim (Bool-cases (d.lt y x)) [
    | inl e ↦ absurd (ground (arith, e, h))
    | inr e ↦ (e, count-below x ys (ground (arith, e, h)))
  ]

  exchange_sort-IsSorted :
      IsOrder d.lt → (n : ℕ) (xs : List F) → length xs ≡ n → IsSorted (exchange_sort n xs)
  unfolding exchange_sort
  exchange_sort-IsSorted order zero [] e = tt
  exchange_sort-IsSorted order zero (x ∷ xs) e = absurd (omega (arith, e))
  exchange_sort-IsSorted order (suc n) [] e = tt
  exchange_sort-IsSorted order (suc n) (x ∷ xs) e = (
    count-below _ _ (
        count-exchange_sort (λ y. d.lt y ((exchange x xs).0)) n ((exchange x xs).1)
        ∙ below-count _ _ (exchange-NoneBelow order x xs)),
    exchange_sort-IsSorted order n ((exchange x xs).1) (omega (arith, length-exchange x xs, e)),
  )

  -- Where `<` is an order, the two loops over the medians sort them: the result is ascending, and
  -- every test holds of as many items as before.
  pub exchange_sort-sorts :
      IsOrder d.lt
      → (xs : List F)
      → IsSorted (exchange_sort (length xs) xs)
        × ((p : F → Bool) → count p (exchange_sort (length xs) xs) ≡ count p xs)
  exchange_sort-sorts order xs =
      (exchange_sort-IsSorted order (length xs) xs refl, λ p. count-exchange_sort p (length xs) xs)
