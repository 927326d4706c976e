-- ===== src/Vector.antt =====
-- rtmb_c/src/testcase/util/result_mgmt/vector.c and its header: a list of pointers with a cached
-- end and size. The nodes stand in an explicit heap; a `vector_t` is passed on as a value, so an
-- operation that updates one returns the new value. What `calloc` returns is an argument, `NULL`
-- where the memory is exhausted.
pub mod Chain
pub mod Add
pub mod Read
mod Examples
use rtmb.Base.{
  ℕ, zero, suc, ◌+◌, ◌-◌, ◌^◌, ◌==◌, if◌then◌else◌, Option, none, some, Fault, bad_pointer,
  arith_overflow, Run, ok, fault, out_of_fuel, ltb,
}
use rtmb.Base.Int.{ℤ, pos, negsuc, pos_part, neg_part, ltb_ℤ}

abbrev pub Ptr : Type 0
Ptr = ℕ

abbrev pub null : Ptr
null = 0

-- `struct vector_node`
pub record Node : Type 0 where
  pub data_ptr : Ptr
  pub next : Ptr

abbrev pub node : Ptr → Ptr → Node
node d q = record { data_ptr = d; next = q }

-- `struct vector`
pub record Vector : Type 0 where
  pub size : ℕ
  pub head : Ptr
  pub last : Ptr

abbrev pub Heap : Type 0
Heap = Ptr → Option Node

-- The heap with what stands at `p` replaced: a node, or nothing where it is given back.
unfoldable pub write : Heap → Ptr → Option Node → Heap
write heap p cell q = if q == p then cell else heap q

-- Code that works on the heap.
abbrev pub Cmd : Type 0 → Type 0
Cmd R = Heap → Run (R × Heap)

abbrev pub pure : {R : Type 0} → R → Cmd R
pure result heap = ok (result, heap)

module _ {R S : Type 0} where
  abbrev pub and_then : Run (R × Heap) → (R → Cmd S) → Run (S × Heap)
  and_then out_of_fuel next = out_of_fuel
  and_then (fault reason) next = fault reason
  and_then (ok (result, heap)) next = next result heap

  infixl 5 ◌>>=◌
  abbrev pub ◌>>=◌ : Cmd R → (R → Cmd S) → Cmd S
  (first >>= next) heap = and_then (first heap) next

  infixl 5 ◌>>◌
  abbrev pub ◌>>◌ : Cmd R → Cmd S → Cmd S
  (first >> second) heap = and_then (first heap) λ _. second

abbrev store : Ptr → Option Node → Cmd (Unit {0})
store p cell heap = ok (tt, write heap p cell)

-- `*p`: a fault at `NULL` and at an address that holds no node.
load : Ptr → Cmd Node
load p h =
    if p == null
    then fault bad_pointer
    else elim (h p) [ none ↦ fault bad_pointer | some n ↦ ok (n, h) ]

set_next : Ptr → Ptr → Cmd (Unit {0})
unfolding load
set_next p q = do n ← load p; store p (some (record n { next = q }))

free : Ptr → Cmd (Unit {0})
unfolding load
free p = load p >> store p none

abbrev pub int_max : ℕ
int_max = 2 ^ 31 - 1

-- `v->size++` on an `int`.
bump_size : Vector → Cmd (ℕ × Vector)
bump_size v h =
    if ltb v.size int_max then ok ((0, record v { size = v.size + 1 }), h) else fault arith_overflow

-- The new node becomes the head of an empty vector, and else follows the last one.
link_last : Vector → Ptr → Cmd Vector
unfolding set_next
link_last v n =
    if v.head == null
    then pure (record v { head = n; last = n })
    else do set_next v.last n; pure (record v { last = n })

pub add_element : (calloc : Ptr) → Vector → Ptr → Cmd (ℕ × Vector)
unfolding link_last bump_size
add_element n v d =
    if n == null
    then pure (1, v)
    else do store n (some (node d null)); v' ← link_last v n; bump_size v'

pub initialize_vector : Vector → Vector
initialize_vector v = record { size = 0; head = null; last = null }

-- The struct that `calloc` clears.
abbrev pub zeroed : Vector
zeroed = record { size = 0; head = 0; last = 0 }

-- The result is `none` for `NULL`.
pub create_vector : (calloc : Ptr) → Option Vector
unfolding initialize_vector
create_vector v = if v == null then none else some (initialize_vector zeroed)

-- The result of `add_element` is not looked at.
pub create_vector2 : (calloc calloc_node : Ptr) → Ptr → Cmd (Option Vector)
unfolding initialize_vector add_element
create_vector2 v n d =
    if v == null
    then pure none
    else do (retval, w) ← add_element n (initialize_vector zeroed) d; pure (some w)

free_loop : ℕ → Ptr → Cmd (Unit {0})
unfolding load free
free_loop zero p = λ _. out_of_fuel
free_loop (suc k) p = if p == null then pure tt else do n ← load p; free p; free_loop k n.next

-- The struct keeps its fields: only the nodes are given back. There are at most `size` of them.
pub free_elements : Vector → Cmd (Unit {0})
unfolding free_loop
free_elements v = free_loop (v.size + 1) v.head

-- `for (i = 0; i < index; i++) node = node->next`, then `node->data`.
walk : ℕ → Ptr → Cmd Ptr
unfolding load
walk zero p = do n ← load p; pure n.data_ptr
walk (suc i) p = do n ← load p; walk i n.next

pub get_element_at : Vector → ℤ → Cmd Ptr
unfolding walk
get_element_at v index =
    if ltb_ℤ index (pos v.size) then walk (pos_part index) v.head else pure null
