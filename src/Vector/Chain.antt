-- ===== src/Vector/Chain.antt =====
-- What the nodes of a vector stand for: the addresses and the data pointers, in order.
use rtmb.Base.{
  ◌≡◌, refl, ap, ◌≢◌, Bool, true, false, ◌||◌, Option, none, some, List, [], ◌∷◌, ◌++◌, arith, ◌==◌,
  length,
}
use rtmb.Vector.{Ptr, null, Node, node, Vector, Heap, write}

pub write_self : (h : Heap) (p : Ptr) (c : Option Node) → write h p c p ≡ c
unfolding write
write_self h p c = ground arith

pub write-ne : (h : Heap) (p : Ptr) (c : Option Node) (a : Ptr) → a ≢ p → write h p c a ≡ h a
unfolding write
write-ne h p c a ne = ground arith

abbrev pub Cells : Type 0
Cells = List (Ptr × Ptr)

abbrev pub has : Ptr → Cells → Bool
has a [] = false
has a ((p, _) ∷ xs) = (a == p) || has a xs

abbrev pub first : Cells → Ptr
first [] = null
first ((p, _) ∷ xs) = p

-- The address of the last cell, for a vector that is not empty.
abbrev pub last_of : Cells → Ptr
last_of [] = null
last_of ((p, _) ∷ []) = p
last_of (x ∷ y ∷ xs) = last_of (y ∷ xs)

-- The cells are linked in order, end with `NULL` and have distinct addresses.
abbrev pub Chain : Heap → Cells → Type 0
Chain h [] = Unit {0}
Chain h ((p, d) ∷ xs) =
    (p ≢ null) × (h p ≡ some (node d (first xs))) × (has p xs ≡ false) × Chain h xs

-- The vector `v` holds the cells `xs`.
pub record IsVector (h : Heap) (v : Vector) (xs : Cells) : Type 0 where
  pub chain : Chain h xs
  pub head_is : v.head ≡ first xs
  pub last_is : v.last ≡ last_of xs
  pub size_is : v.size ≡ length xs

-- The data pointers, which the callers of a vector see.
abbrev pub items : Cells → List Ptr
items [] = []
items ((_, d) ∷ xs) = d ∷ items xs

pub has-of_none : (h : Heap) (n : Ptr) (xs : Cells) → Chain h xs → h n ≡ none → has n xs ≡ false
has-of_none h n [] c u = refl
has-of_none h n ((p, d) ∷ xs) (ne, e, out, c) u = ground (arith, has-of_none h n xs c u)

-- A chain survives every change that spares its cells.
pub Chain-frame :
    (h g : Heap) (xs : Cells) → Chain h xs → ((a : Ptr) → has a xs ≡ true → g a ≡ h a) → Chain g xs
Chain-frame h g [] c same = tt
Chain-frame h g ((p, d) ∷ xs) (ne, e, out, c) same =
    (ne, ground (arith, same p), out, Chain-frame h g xs c λ a i. same a (ground arith))

pub has-append : (a : Ptr) (xs ys : Cells) → has a (xs ++ ys) ≡ (has a xs || has a ys)
has-append a [] ys = refl
has-append a ((p, d) ∷ xs) ys = ground (arith, has-append a xs ys)

pub items-append : (xs ys : Cells) → items (xs ++ ys) ≡ items xs ++ items ys
items-append [] ys = refl
items-append ((p, d) ∷ xs) ys = ap (◌∷◌ d) (items-append xs ys)
