-- ===== src/Base/Effect.antt =====
-- Runs of C code: a value, or the reason why the program does not go on.
use mathlib.Core.Option.{Option, none, some}
use mathlib.Core.Bool.{Bool, true, false}
use rtmb.Base.Tests.{if◌then◌else◌}

-- What ends a run: an access through `NULL` or a dangling pointer, an index outside its array, a
-- copy longer than its buffer, a signed overflow, a division by zero, a failed `assert`, a call of
-- `abort()`, and a lock that its own holder takes again.
pub data Fault : Type 0 where
  bad_pointer out_of_bounds buffer_overflow arith_overflow div_by_zero : Fault
  assert_failed aborted deadlock : Fault

pub data Run {ℓ} (A : Type ℓ) : Type ℓ where
  ok : A → Run A
  fault : Fault → Run A
  out_of_fuel : Run A

infixl 5 ◌>>=◌ ◌>>◌
abbrev pub ◌>>=◌ {ℓ κ} : {A : Type ℓ} {B : Type κ} → Run A → (A → Run B) → Run B
out_of_fuel >>= next = out_of_fuel
fault reason >>= next = fault reason
ok result >>= next = next result

abbrev pub ◌>>◌ {ℓ} : {A : Type ℓ} → Run (Unit {0}) → Run A → Run A
m >> k = m >>= λ _. k

-- `assert` and the checks that the language leaves to the program.
abbrev pub require : Fault → Bool → Run (Unit {0})
require f true = ok tt
require f false = fault f

-- A total run: it returns, and its value meets `P`.
pub data Returns {ℓ κ} {A : Type ℓ} (P : A → Type κ) : Run A → Type (ℓ ⊔ κ) where
  returns : {a : A} → P a → Returns P (ok a)

pub Returns-bind {ℓ κ μ} :
    {A : Type ℓ} {B : Type κ} {P : A → Type μ} {Q : B → Type μ} {r : Run A} {k : A → Run B}
    → Returns P r
    → ((a : A) → P a → Returns Q (k a))
    → Returns Q (r >>= k)
Returns-bind (returns p) next = next _ p

pub Returns-map {ℓ κ} :
    {A : Type ℓ} {P Q : A → Type κ} {r : Run A} → Returns P r → ((a : A) → P a → Q a) → Returns Q r
Returns-map (returns p) weaken = returns (weaken _ p)

-- A run of the model that has fuel enough: it comes to a value or to a fault. A fault stands for
-- behaviour that C does not define, so this is no claim that the program ends.
pub data Fuelled {ℓ} {A : Type ℓ} : Run A → Type ℓ where
  returned : (a : A) → Fuelled (ok a)
  faulted : (f : Fault) → Fuelled (fault f)

pub Fuelled-bind {ℓ} :
    {A B : Type ℓ} {r : Run A} {k : A → Run B}
    → Fuelled r
    → ((a : A) → Fuelled (k a))
    → Fuelled (r >>= k)
Fuelled-bind (returned a) next = next a
Fuelled-bind (faulted f) next = faulted f

pub Fuelled-if {ℓ} :
    {A : Type ℓ} (b : Bool) (x y : Run A) → Fuelled x → Fuelled y → Fuelled (if b then x else y)
Fuelled-if true x y p q = p
Fuelled-if false x y p q = q

pub require-Fuelled : (f : Fault) (b : Bool) → Fuelled (require f b)
require-Fuelled f true = returned tt
require-Fuelled f false = faulted f

pub Option-Fuelled {ℓ} :
    {A : Type ℓ} (f : Fault) (o : Option A) → Fuelled (elim o [ none ↦ fault f | some x ↦ ok x ])
Option-Fuelled f none = faulted f
Option-Fuelled f (some x) = returned x
