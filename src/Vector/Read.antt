-- ===== src/Vector/Read.antt =====
-- `get_element_at` and `free_elements`.
use rtmb.Base.{
  ℕ, zero, suc, ◌+◌, ◌<◌, ◌≤◌, ◌≡◌, refl, ap, ◌∙◌, ◌≢◌, false, none, some, [], ◌∷◌, ◌++◌, arith,
  ◌==◌, length, get_or, if◌then◌else◌, bad_pointer, Run, ok, fault, Returns, returns, Returns-map,
  dec_lt,
}
use rtmb.Base.Int.{pos, negsuc}
use rtmb.Vector.{
  Ptr, null, node, Vector, Heap, int_max, load, free, walk, add_element, get_element_at, free_loop,
  free_elements, write,
}
use rtmb.Vector.Chain.{Cells, items, has, first, Chain, IsVector, write-ne, Chain-frame}
use rtmb.Vector.Add.{add_element-append}

length-items : (xs : Cells) → length (items xs) ≡ length xs
length-items [] = refl
length-items ((p, d) ∷ xs) = ap suc (length-items xs)

load-ok : (h : Heap) (p d q : Ptr) → p ≢ null → h p ≡ some (node d q) → load p h ≡ ok (node d q, h)
unfolding load
load-ok h p d q ne e = ground arith

walk-get_or :
    (h : Heap) (xs : Cells) (i : ℕ)
    → Chain h xs
    → i < length xs
    → walk i (first xs) h ≡ ok (get_or (items xs) i null, h)
unfolding walk
walk-get_or h [] i c lt = absurd (omega arith)
walk-get_or h ((p, d) ∷ xs) zero (ne, e, out, c) lt = rw (load-ok h p d (first xs) ne e)
walk-get_or h ((p, d) ∷ xs) (suc i) (ne, e, out, c) lt =
    rw (load-ok h p d (first xs) ne e) (walk-get_or h xs i c (omega arith))

get_or-nil : (xs : Cells) (i : ℕ) → length xs ≤ i → get_or (items xs) i null ≡ null
get_or-nil [] i h = refl
get_or-nil ((p, d) ∷ xs) zero h = absurd (omega arith)
get_or-nil ((p, d) ∷ xs) (suc i) h = get_or-nil xs i (omega arith)

get_element_at-below :
    (h : Heap) (v : Vector) (i : ℕ) → i < v.size → get_element_at v (pos i) h ≡ walk i v.head h
unfolding get_element_at
get_element_at-below h v i lt = ground arith

get_element_at-above :
    (h : Heap) (v : Vector) (i : ℕ) → v.size ≤ i → get_element_at v (pos i) h ≡ ok (null, h)
unfolding get_element_at
get_element_at-above h v i le = ground arith

get_element_at-below_zero :
    (h : Heap) (v : Vector) (k : ℕ) → get_element_at v (negsuc k) h ≡ walk 0 v.head h
unfolding get_element_at
get_element_at-below_zero h v k = ground arith

-- At an index that is not negative `get_element_at` returns the data pointer of that cell, or
-- `NULL` at and past the end, and writes nothing.
pub get_element_at-get_or :
    (h : Heap) (v : Vector) (xs : Cells) (i : ℕ)
    → IsVector h v xs
    → get_element_at v (pos i) h ≡ ok (get_or (items xs) i null, h)
get_element_at-get_or h v xs i is = elim (dec_lt i v.size) [
  | yes lt ↦
      get_element_at-below h v i lt
      ∙ rw is.head_is (walk-get_or h xs i is.chain (omega (arith, is.size_is)))
  | no ge ↦
      rw (get_or-nil xs i (omega (arith, is.size_is))) (get_element_at-above h v i (omega arith))
]

-- What a read through the head finds.
abbrev pub head_read : Heap → Cells → Run (Ptr × Heap)
head_read h [] = fault bad_pointer
head_read h ((p, d) ∷ xs) = ok (d, h)

walk-head_read : (h : Heap) (xs : Cells) → Chain h xs → walk 0 (first xs) h ≡ head_read h xs
unfolding walk load
walk-head_read h [] c = refl
walk-head_read h ((p, d) ∷ xs) (ne, e, out, c) = rw (load-ok h p d (first xs) ne e)

-- A negative index passes the bound check and the loop makes no round: `get_element_at` returns the
-- first data pointer, and reads through `NULL` if the vector is empty.
pub get_element_at-head_read :
    (h : Heap) (v : Vector) (xs : Cells) (k : ℕ)
    → IsVector h v xs
    → get_element_at v (negsuc k) h ≡ head_read h xs
get_element_at-head_read h v xs k is =
    get_element_at-below_zero h v k ∙ rw is.head_is (walk-head_read h xs is.chain)

-- What a caller reads after an append: the new pointer at the old size, the old ones below it.
abbrev pub ReadsAdded : Heap → Vector → Ptr → Vector → Heap → Type 0
ReadsAdded h v d w g =
    (get_element_at w (pos v.size) g ≡ ok (d, g))
    × ((i : ℕ) (a : Ptr)
        → i < v.size
        → get_element_at v (pos i) h ≡ ok (a, h)
        → get_element_at w (pos i) g ≡ ok (a, g))

value_of : (h : Heap) (a b : Ptr) (r : Run (Ptr × Heap)) → r ≡ ok (a, h) → r ≡ ok (b, h) → a ≡ b
value_of h a b r e f = cc

get_or-snoc : (xs : Cells) (n d : Ptr) → get_or (items (xs ++ (n, d) ∷ [])) (length xs) null ≡ d
get_or-snoc [] n d = refl
get_or-snoc ((p, w) ∷ xs) n d = get_or-snoc xs n d

get_or-before :
    (xs : Cells) (n d : Ptr) (i : ℕ)
    → i < length xs
    → get_or (items (xs ++ (n, d) ∷ [])) i null ≡ get_or (items xs) i null
get_or-before [] n d i lt = absurd (omega arith)
get_or-before ((p, w) ∷ xs) n d zero lt = refl
get_or-before ((p, w) ∷ xs) n d (suc i) lt = get_or-before xs n d i (omega arith)

IsVector-ReadsAdded :
    (h g : Heap) (v w : Vector) (xs : Cells) (n d : Ptr)
    → IsVector h v xs
    → IsVector g w (xs ++ (n, d) ∷ [])
    → ReadsAdded h v d w g
IsVector-ReadsAdded h g v w xs n d is is' = (
  get_element_at-get_or g w _ v.size is' ∙ rw is.size_is (rw (get_or-snoc xs n d)),
  λ i a lt e.
      get_element_at-get_or g w _ i is'
      ∙ rw (get_or-before xs n d i (omega (arith, is.size_is)))
          (ap (λ (x : Ptr). ok (x, g)) (value_of h _ _ _ (get_element_at-get_or h v xs i is) e)),
)

-- Reading after `add_element`, with a fresh node and a size below the largest `int`: the new
-- pointer stands at the old size, and below it every index reads what it read before.
pub get_element_at-add_element :
    (h : Heap) (v : Vector) (xs : Cells) (n d : Ptr)
    → IsVector h v xs
    → n ≢ null
    → h n ≡ none
    → v.size < int_max
    → Returns (λ ((rc, w), g). ReadsAdded h v d w g) (add_element n v d h)
get_element_at-add_element h v xs n d is ne unused small =
    Returns-map (add_element-append h v xs n d is ne unused small)
      λ ((rc, w), g) (done, is', same). IsVector-ReadsAdded h g v w xs n d is is'

free-ok :
    (h : Heap) (p d q : Ptr) → p ≢ null → h p ≡ some (node d q) → free p h ≡ ok (tt, write h p none)
unfolding free load
free-ok h p d q ne e = ground arith

abbrev pub Without : Heap → Cells → Heap → Type 0
Without h xs g = (a : Ptr) → g a ≡ (if has a xs then none else h a)

free_loop-Without :
    (k : ℕ) (h : Heap) (xs : Cells)
    → Chain h xs
    → length xs < k
    → Returns (λ (_, g). Without h xs g) (free_loop k (first xs) h)
unfolding free_loop
free_loop-Without zero h xs c lt = absurd (omega arith)
free_loop-Without (suc k) h [] c lt = returns (λ a. refl)
free_loop-Without (suc k) h ((p, d) ∷ xs) (ne, e, out, c) lt =
    let nz : (p == null) ≡ false = ground arith in
    rw (nz, load-ok h p d (first xs) ne e, free-ok h p d (first xs) ne e)
      (Returns-map
        (free_loop-Without k (write h p none) xs
          (Chain-frame h _ xs c λ a i. write-ne h p none a (ground arith)) (omega arith))
        λ (_, g) w a. w a ∙ unfold write in ground arith)

-- `free_elements` ends, and gives back exactly the nodes of the vector.
pub free_elements-Without :
    (h : Heap) (v : Vector) (xs : Cells)
    → IsVector h v xs
    → Returns (λ (_, g). Without h xs g) (free_elements v h)
unfolding free_elements
free_elements-Without h v xs is =
    rw is.head_is (free_loop-Without (v.size + 1) h xs is.chain (omega (arith, is.size_is)))

load-fault : (h : Heap) (p : Ptr) → h p ≡ none → load p h ≡ fault bad_pointer
unfolding load
load-fault h p e = ground arith

-- The struct still leads to the nodes that `free_elements` gave back: every later read at an index
-- below the size is a use after free.
pub get_element_at-free_elements :
    (h : Heap) (v : Vector) (xs : Cells) (i : ℕ)
    → IsVector h v xs
    → i < v.size
    → Returns (λ (_, g). get_element_at v (pos i) g ≡ fault bad_pointer) (free_elements v h)
unfolding walk
get_element_at-free_elements h v [] i is lt = absurd (omega (arith, is.size_is))
get_element_at-free_elements h v ((p, d) ∷ xs) zero is lt =
    Returns-map (free_elements-Without h v _ is) λ (_, g) w.
      get_element_at-below g v 0 lt ∙ rw is.head_is (rw (load-fault g p (w p ∙ ground arith)))
get_element_at-free_elements h v ((p, d) ∷ xs) (suc i) is lt =
    Returns-map (free_elements-Without h v _ is) λ (_, g) w.
      get_element_at-below g v (suc i) lt ∙ rw is.head_is (rw (load-fault g p (w p ∙ ground arith)))
