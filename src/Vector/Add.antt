-- ===== src/Vector/Add.antt =====
-- `add_element`, `create_vector` and `create_vector2`.
use rtmb.Base.{
  ℕ, ◌+◌, ◌<◌, ◌≡◌, refl, sym, ◌∙◌, ◌≢◌, true, false, none, some, [], ◌∷◌, ◌++◌, arith, ◌==◌,
  length-append, if◌then◌else◌, Bool-cases, inl, inr, ok, Returns, returns,
}
use rtmb.Vector.{Ptr, null, node, Vector, Heap, write, int_max, add_element, zeroed, create_vector2}
use rtmb.Vector.Chain.{
  write_self, write-ne, Cells, has, last_of, Chain, IsVector, has-of_none, has-append,
}

abbrev last_data : Cells → Ptr
last_data [] = null
last_data ((_, d) ∷ []) = d
last_data (x ∷ y ∷ xs) = last_data (y ∷ xs)

last_of-has : (x : Ptr × Ptr) (xs : Cells) → has (last_of (x ∷ xs)) (x ∷ xs) ≡ true
last_of-has (p, d) [] = ground arith
last_of-has (p, d) (y ∷ ys) = ground (arith, last_of-has y ys)

last-cell :
    (h : Heap) (x : Ptr × Ptr) (xs : Cells)
    → Chain h (x ∷ xs)
    → (last_of (x ∷ xs) ≢ null) × (h (last_of (x ∷ xs)) ≡ some (node (last_data (x ∷ xs)) null))
last-cell h (p, d) [] (ne, e, out, c) = (ne, e)
last-cell h (p, d) (y ∷ ys) (ne, e, out, c) = last-cell h y ys c

-- `g` differs from `h` in the last cell, which leads to the new one.
Chain-snoc :
    (h g : Heap) (x : Ptr × Ptr) (xs : Cells) (n d : Ptr)
    → Chain h (x ∷ xs)
    → n ≢ null
    → has n (x ∷ xs) ≡ false
    → g n ≡ some (node d null)
    → g (last_of (x ∷ xs)) ≡ some (node (last_data (x ∷ xs)) n)
    → ((a : Ptr) → has a (x ∷ xs) ≡ true → a ≢ last_of (x ∷ xs) → g a ≡ h a)
    → Chain g ((x ∷ xs) ++ (n, d) ∷ [])
Chain-snoc h g (p, w) [] n d (ne, e, out, c) nn fresh gn gl same =
    (ne, gl, ground arith, (nn, gn, refl, tt))
Chain-snoc h g (p, w) (y ∷ ys) n d (ne, e, out, c) nn fresh gn gl same =
    let old : p ≢ last_of (y ∷ ys) = λ q. ground (arith, last_of-has y ys) in
    (
      ne,
      ground (arith, same p),
      ground (arith, has-append p (y ∷ ys) ((n, d) ∷ [])),
      Chain-snoc h g y ys n d c nn (ground arith) gn gl (λ a i l. same a (ground arith) l),
    )

last_of-snoc : (x : Ptr × Ptr) (xs : Cells) (n d : Ptr) → last_of ((x ∷ xs) ++ (n, d) ∷ []) ≡ n
last_of-snoc x [] n d = refl
last_of-snoc x (y ∷ ys) n d = last_of-snoc y ys n d

-- What a successful `add_element` leaves: the cells with the new one behind them, and the heap
-- unchanged but at the new cell and the cell that was last.
abbrev pub Added : Heap → Cells → Ptr → Ptr → (ℕ × Vector) × Heap → Type 0
Added h xs n d ((rc, v), g) =
    (rc ≡ 0) × IsVector g v (xs ++ (n, d) ∷ []) × ((a : Ptr) → a ≢ n → a ≢ last_of xs → g a ≡ h a)

abbrev grown : Vector → Ptr → Ptr → Vector
grown v hd n = record { size = v.size + 1; head = hd; last = n }

abbrev with_node : Heap → Ptr → Ptr → Heap
with_node h n d = write h n (some (node d null))

add_element-run_nil :
    (h : Heap) (v : Vector) (n d : Ptr)
    → n ≢ null
    → v.head ≡ null
    → v.size < int_max
    → add_element n v d h ≡ ok ((0, grown v n n), with_node h n d)
unfolding add_element
add_element-run_nil h v n d ne empty small = ground arith

add_element-run_cons :
    (h : Heap) (v : Vector) (n d w l : Ptr)
    → n ≢ null
    → v.head ≢ null
    → v.last ≡ l
    → l ≢ null
    → l ≢ n
    → h l ≡ some (node w null)
    → v.size < int_max
    → add_element n v d h ≡ ok ((0, grown v v.head n), write (with_node h n d) l (some (node w n)))
unfolding add_element write
add_element-run_cons h v n d w l ne full e ln other cell small = ground arith

-- `add_element` appends: with a fresh node and a size below the largest `int`, the call returns 0,
-- the vector holds the old cells and the new one behind them, and no cell but the new one and the
-- old last one is written.
pub add_element-append :
    (h : Heap) (v : Vector) (xs : Cells) (n d : Ptr)
    → IsVector h v xs
    → n ≢ null
    → h n ≡ none
    → v.size < int_max
    → Returns (Added h xs n d) (add_element n v d h)
add_element-append h v [] n d is ne unused small =
    rw (add_element-run_nil h v n d ne is.head_is small) (
      returns (
        refl,
        record {
          chain = (ne, write_self h n _, refl, tt);
          head_is = refl;
          last_is = refl;
          size_is = omega (arith, is.size_is);
        },
        λ a p q. write-ne h n _ a p,
      ))
add_element-append h v (x ∷ xs) n d is ne unused small =
    let (ln, cell) = last-cell h x xs is.chain in
    let fresh = has-of_none h n (x ∷ xs) is.chain unused in
    let other : last_of (x ∷ xs) ≢ n = ground (arith, last_of-has x xs) in
    let full : v.head ≢ null = λ q. is.chain.0 (sym is.head_is ∙ q) in
    rw
      (add_element-run_cons h v n d (last_data (x ∷ xs)) (last_of (x ∷ xs)) ne full is.last_is ln
        other cell small)
      (returns (
        refl,
        record {
          chain =
              Chain-snoc h _ x xs n d is.chain ne fresh
                (write-ne _ _ _ n (λ q. other (sym q)) ∙ write_self h n _) (write_self _ _ _)
                (λ a i l. write-ne _ _ _ a l ∙ write-ne h n _ a (λ q. ground arith));
          head_is = is.head_is;
          last_is = sym (last_of-snoc x xs n d);
          size_is = omega (arith, is.size_is, length-append {0} (x ∷ xs) ((n, d) ∷ []));
        },
        λ a p q. write-ne _ _ _ a q ∙ write-ne h n _ a p,
      ))

-- The cells of a vector that is made with one element, which is missing if no node was allocated.
abbrev pub single : Ptr → Ptr → Cells
single n d = if n == null then [] else (n, d) ∷ []

-- `create_vector2` on memory for the struct returns a vector in every case. It holds the element if
-- a node was allocated too; where only that allocation failed, the result is an empty vector, and
-- the caller is not told.
pub create_vector2-single :
    (h : Heap) (v n d : Ptr)
    → v ≢ null
    → Returns
        (λ (o, g). (w : Vector) × (o ≡ some w) × IsVector g w (single n d))
        (create_vector2 v n d h)
unfolding create_vector2
create_vector2-single h v n d ne =
    let nz : (v == null) ≡ false = ground arith in
    elim (Bool-cases (n == null)) [
      | inl none_left ↦
          rw (nz, none_left)
            (returns
              (zeroed, refl, record { chain = tt; head_is = refl; last_is = refl; size_is = refl }))
      | inr fresh ↦
          rw (nz, fresh)
            (returns (
              record { size = 1; head = n; last = n },
              refl,
              record {
                chain = (ground arith, write_self h n _, refl, tt);
                head_is = refl;
                last_is = refl;
                size_is = refl;
              },
            ))
    ]
