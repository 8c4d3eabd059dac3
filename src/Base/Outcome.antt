-- ===== src/Base/Outcome.antt =====
-- How a call ends: with a value, or in `my_assert` (src/common/my_assert.c), which prints and then
-- loops for ever, when the test of a `KASSERT` fails. `out_of_fuel` is the model's own: a loop that
-- the rounds given to it did not finish. `out_of_bounds` is an access outside of an array.
use the_polling_express.Base.{Bool, true, false, Option, none, some}

pub data Outcome (A : Type 0) : Type 0 where
  ok : A → Outcome A
  assert_failed out_of_fuel out_of_bounds : Outcome A

infixl 5 ◌>>=◌ ◌>>◌
abbrev pub ◌>>=◌ : {A B : Type 0} → Outcome A → (A → Outcome B) → Outcome B
assert_failed >>= next = assert_failed
out_of_fuel >>= next = out_of_fuel
out_of_bounds >>= next = out_of_bounds
ok value >>= next = next value

abbrev pub ◌>>◌ : {B : Type 0} → Outcome (Unit {0}) → Outcome B → Outcome B
assert_failed >> next = assert_failed
out_of_fuel >> next = out_of_fuel
out_of_bounds >> next = out_of_bounds
ok _ >> next = next

abbrev pub kassert : Bool → Outcome (Unit {0})
kassert false = assert_failed
kassert true = ok tt

-- what a loop on fuel ends with
abbrev pub finished : {A : Type 0} → Option A → Outcome A
finished none = out_of_fuel
finished (some a) = ok a

-- The call ends, with a value that the predicate holds of.
abbrev pub EndsIn : {A : Type 0} → (A → Type 0) → Outcome A → Type 0
EndsIn P (ok a) = P a
EndsIn P assert_failed = ⊥
EndsIn P out_of_fuel = ⊥
EndsIn P out_of_bounds = ⊥

pub EndsIn-bind :
    {A B : Type 0} (P : A → Type 0) (Q : B → Type 0) (r : Outcome A) (next : A → Outcome B)
    → ((a : A) → P a → EndsIn Q (next a))
    → EndsIn P r
    → EndsIn Q (r >>= next)
EndsIn-bind P Q (ok a) next f h = f a h
EndsIn-bind P Q assert_failed next f h = h
EndsIn-bind P Q out_of_fuel next f h = h
EndsIn-bind P Q out_of_bounds next f h = h

pub EndsIn-map :
    {A : Type 0} (P Q : A → Type 0) (r : Outcome A)
    → ((a : A) → P a → Q a)
    → EndsIn P r
    → EndsIn Q r
EndsIn-map P Q (ok a) f h = f a h
EndsIn-map P Q assert_failed f h = h
EndsIn-map P Q out_of_fuel f h = h
EndsIn-map P Q out_of_bounds f h = h

-- The predicate holds of the value, if the call ends with one.
abbrev pub IfEnds : {A : Type 0} → (A → Type 0) → Outcome A → Type 0
IfEnds P (ok a) = P a
IfEnds P assert_failed = Unit
IfEnds P out_of_fuel = Unit
IfEnds P out_of_bounds = Unit

pub EndsIn-and :
    {A : Type 0} (P Q : A → Type 0) (r : Outcome A)
    → EndsIn P r
    → IfEnds Q r
    → EndsIn (λ a. P a × Q a) r
EndsIn-and P Q (ok a) p q = (p, q)
EndsIn-and P Q assert_failed p q = p
EndsIn-and P Q out_of_fuel p q = p
EndsIn-and P Q out_of_bounds p q = p

pub IfEnds-bind :
    {A B : Type 0} (P : A → Type 0) (Q : B → Type 0) (r : Outcome A) (next : A → Outcome B)
    → ((a : A) → P a → IfEnds Q (next a))
    → IfEnds P r
    → IfEnds Q (r >>= next)
IfEnds-bind P Q (ok a) next f h = f a h
IfEnds-bind P Q assert_failed next f h = tt
IfEnds-bind P Q out_of_fuel next f h = tt
IfEnds-bind P Q out_of_bounds next f h = tt

pub IfEnds-always : {A : Type 0} (r : Outcome A) → IfEnds (λ a. Unit {0}) r
IfEnds-always (ok a) = tt
IfEnds-always assert_failed = tt
IfEnds-always out_of_fuel = tt
IfEnds-always out_of_bounds = tt

pub IfEnds-both :
    {A : Type 0} (P Q : A → Type 0) (r : Outcome A)
    → IfEnds P r
    → IfEnds Q r
    → IfEnds (λ a. P a × Q a) r
IfEnds-both P Q (ok a) p q = (p, q)
IfEnds-both P Q assert_failed p q = tt
IfEnds-both P Q out_of_fuel p q = tt
IfEnds-both P Q out_of_bounds p q = tt
