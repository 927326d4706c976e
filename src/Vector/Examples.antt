-- ===== src/Vector/Examples.antt =====
-- Runs of vector.c on small heaps.
use rtmb.Base.{◌≡◌, refl, none, some, [], ◌∷◌, arith, Run, Returns, returns}
use rtmb.Base.Int.{pos}
use rtmb.Vector.{
  Ptr, node, Vector, Heap, write, zeroed, add_element, get_element_at, free_elements, pure, ◌>>=◌,
}
use rtmb.Vector.Chain.{Cells, IsVector}
use rtmb.Vector.Add.{Added, add_element-append}
use rtmb.Vector.Read.{ReadsAdded, Without, get_element_at-add_element, free_elements-Without}

abbrev empty_heap : Heap
empty_heap _ = none

-- Two appended pointers are read back in order, and `NULL` behind them.
append_twice : Run ((Ptr × Ptr × Ptr) × Heap)
append_twice =
    (do
      (_, v) ← add_element 10 zeroed 501
      (_, v) ← add_element 20 v 502
      a ← get_element_at v (pos 0)
      b ← get_element_at v (pos 1)
      c ← get_element_at v (pos 2)
      pure (a, b, c))
      empty_heap

append_twice_reads : Returns (λ (r, g). r ≡ (501, 502, 0)) append_twice
unfolding append_twice add_element get_element_at write
append_twice_reads = returns refl

-- The heap and the vector of two cells.
abbrev two_nodes : Heap
two_nodes = write (write empty_heap 10 (some (node 501 20))) 20 (some (node 502 0))

abbrev two_cells : Cells
two_cells = (10, 501) ∷ (20, 502) ∷ []

abbrev two : Vector
two = record { size = 2; head = 10; last = 20 }

two-IsVector : IsVector two_nodes two two_cells
unfolding write
two-IsVector = record {
  chain = (omega arith, refl, refl, (omega arith, refl, refl, tt));
  head_is = refl;
  last_is = refl;
  size_is = refl;
}

add_element-append_example :
    Returns (Added two_nodes two_cells 30 503) (add_element 30 two 503 two_nodes)
unfolding write
add_element-append_example =
    add_element-append two_nodes two two_cells 30 503 two-IsVector (omega arith) refl (omega arith)

get_element_at-add_element_example :
    Returns (λ ((rc, w), g). ReadsAdded two_nodes two 503 w g) (add_element 30 two 503 two_nodes)
unfolding write
get_element_at-add_element_example =
    get_element_at-add_element two_nodes two two_cells 30 503 two-IsVector (omega arith) refl
      (omega arith)

free_elements-Without_example :
    Returns (λ (_, g). Without two_nodes two_cells g) (free_elements two two_nodes)
free_elements-Without_example = free_elements-Without two_nodes two two_cells two-IsVector
