-- ===== src/Work/Arrays.antt =====
-- `do_array_opern` stays inside its array.
use rtmb.Base.{
  if◌then◌else◌, ℕ, zero, suc, ◌+◌, ◌-◌, ◌*◌, ◌/◌, ◌%◌, ◌==◌, ◌≤◌, ◌<◌, ◌≡◌, refl, ◌∙◌, arith, some,
  List, length, length-set, Run, Returns, returns, Returns-bind, lt→ltb, Bool-cases, inl, inr,
}
use rtmb.Base.Int.{success}
use rtmb.Work.{page_step, write, array_rounds, do_array_opern}

-- An array of the same length, whose items are old ones or new letters.
abbrev pub SameLength : List ℕ → List ℕ → Type 0
SameLength m m' = length m' ≡ length m

write-SameLength : (m : List ℕ) (j c : ℕ) → j < length m → Returns (SameLength m) (write m j c)
write-SameLength m j c h = rw (lt→ltb j (length m) h) (returns (length-set m j c))

round-SameLength :
    (m : List ℕ) (i j end : ℕ)
    → j < length m
    → end - i - 1 < length m
    → Returns (SameLength m) (if i % 2 == 0 then write m j 97 else write m (end - i - 1) 98)
round-SameLength m i j end h k = elim (Bool-cases (i % 2 == 0)) [
  | inl even ↦ rw even (write-SameLength m j 97 h)
  | inr odd ↦ rw odd (write-SameLength m (end - i - 1) 98 k)
]

Returns-trans :
    (m m' : List ℕ) (r : Run (List ℕ))
    → SameLength m m'
    → Returns (SameLength m') r
    → Returns (SameLength m) r
Returns-trans m m' r same (returns p) = returns (p ∙ same)

array_rounds-SameLength :
    (n i j end : ℕ) (m : List ℕ)
    → n + i ≡ end
    → j ≡ i * page_step
    → end * page_step ≤ length m
    → Returns (SameLength m) (array_rounds n i j end m)
unfolding array_rounds
array_rounds-SameLength zero i j end m e k h = returns refl
array_rounds-SameLength (suc n) i j end m e k h =
    Returns-bind (round-SameLength m i j end (omega arith) (omega arith)) λ m' same.
      Returns-trans m m' _ same (
        array_rounds-SameLength n (i + 1) (j + page_step) end m' (omega arith) (omega arith)
          (omega (arith, same)))

-- For an array of `size` bytes `do_array_opern` succeeds: every write is inside the array, which
-- keeps its length.
pub do_array_opern-SameLength :
    (m : List ℕ) (size : ℕ)
    → length m ≡ size
    → Returns
        (λ (rc, m'). (rc ≡ success) × ((a : List ℕ) × (m' ≡ some a) × (length a ≡ size)))
        (do_array_opern (some m) size)
unfolding do_array_opern
do_array_opern-SameLength m size e =
    Returns-bind
      (array_rounds-SameLength (size / page_step) 0 0 (size / page_step) m (omega arith)
        (omega arith) (omega arith))
      λ m' same. returns (refl, (m', refl, same ∙ e))
