-- ===== src/Base/Lists.antt =====
-- Lists measured and indexed by native numbers, under the library's names.
use Prim.Native.Nat.{ℕ, zero, suc, ◌+◌, ◌-◌, ◌<◌, min}
use mathlib.Core.Path.{◌≡◌, refl, ap}
use mathlib.Core.Logic.{◌≢◌, ◌⊎◌, inl, inr}
use mathlib.Core.List.{List, [], ◌∷◌, ◌++◌, map}
use mathlib.Core.Option.{Option, none, some}
use native.Mathlib.Omega.{arith}
use the_polling_express.Base.Tests.{◌==◌, if◌then◌else◌}

module _ {ℓ} {A : Type ℓ} where
  abbrev pub length : List A → ℕ
  length [] = 0
  length (x ∷ xs) = suc (length xs)

  abbrev pub get_elem? : List A → ℕ → Option A
  get_elem? [] i = none
  get_elem? (x ∷ xs) zero = some x
  get_elem? (x ∷ xs) (suc i) = get_elem? xs i

  -- A write out of bounds changes nothing.
  abbrev pub set : List A → ℕ → A → List A
  set [] i v = []
  set (x ∷ xs) zero v = v ∷ xs
  set (x ∷ xs) (suc i) v = x ∷ set xs i v

  pub length-append : (xs ys : List A) → length (xs ++ ys) ≡ length xs + length ys
  length-append [] ys = omega arith
  length-append (x ∷ xs) ys = omega (arith, length-append xs ys)

module _ {ℓ} {A : Type ℓ} where
  pub length-set : (xs : List A) (i : ℕ) (v : A) → length (set xs i v) ≡ length xs
  length-set [] i v = refl
  length-set (x ∷ xs) zero v = refl
  length-set (x ∷ xs) (suc i) v = ap suc (length-set xs i v)

  pub get_elem?-set_self :
      (xs : List A) (i : ℕ) (v : A) → i < length xs → get_elem? (set xs i v) i ≡ some v
  get_elem?-set_self [] i v h = elim h [ ]
  get_elem?-set_self (x ∷ xs) zero v h = refl
  get_elem?-set_self (x ∷ xs) (suc i) v h = get_elem?-set_self xs i v (omega arith)

  pub get_elem?-set_ne :
      (xs : List A) {i j : ℕ} (v : A) → i ≢ j → get_elem? (set xs i v) j ≡ get_elem? xs j
  get_elem?-set_ne [] v h = refl
  get_elem?-set_ne (x ∷ xs) {i = zero} {j = zero} v h = absurd (h refl)
  get_elem?-set_ne (x ∷ xs) {i = zero} {j = suc j} v h = refl
  get_elem?-set_ne (x ∷ xs) {i = suc i} {j = zero} v h = refl
  get_elem?-set_ne (x ∷ xs) {i = suc i} {j = suc j} v h = get_elem?-set_ne xs v (λ e. h (ap suc e))

module _ {ℓ} {A : Type ℓ} where
  abbrev pub get_or : List A → ℕ → A → A
  get_or [] i d = d
  get_or (x ∷ xs) zero d = x
  get_or (x ∷ xs) (suc i) d = get_or xs i d

  abbrev pub take : ℕ → List A → List A
  take zero xs = []
  take (suc n) [] = []
  take (suc n) (x ∷ xs) = x ∷ take n xs

  abbrev pub drop : ℕ → List A → List A
  drop zero xs = xs
  drop (suc n) [] = []
  drop (suc n) (x ∷ xs) = drop n xs

  abbrev pub replicate : ℕ → A → List A
  replicate zero a = []
  replicate (suc n) a = a ∷ replicate n a

  pub take-append-drop : (n : ℕ) (xs : List A) → take n xs ++ drop n xs ≡ xs
  take-append-drop zero xs = refl
  take-append-drop (suc n) [] = refl
  take-append-drop (suc n) (x ∷ xs) = rw (take-append-drop n xs)

  pub length-take : (n : ℕ) (xs : List A) → length (take n xs) ≡ min n (length xs)
  length-take zero xs = omega arith
  length-take (suc n) [] = omega arith
  length-take (suc n) (x ∷ xs) = omega (arith, length-take n xs)

  pub length-drop : (n : ℕ) (xs : List A) → length (drop n xs) ≡ length xs - n
  length-drop zero xs = omega arith
  length-drop (suc n) [] = omega arith
  length-drop (suc n) (x ∷ xs) = omega (arith, length-drop n xs)

  pub length-replicate : (n : ℕ) (a : A) → length (replicate n a) ≡ n
  length-replicate zero a = refl
  length-replicate (suc n) a = ap suc (length-replicate n a)

  pub length-map {κ} : {B : Type κ} (xs : List A) (f : A → B) → length (map f xs) ≡ length xs
  length-map [] f = refl
  length-map (x ∷ xs) f = ap suc (length-map xs f)

module _ {ℓ} {A : Type ℓ} (d : A) where
  pub get_elem?-some : (xs : List A) (i : ℕ) → i < length xs → get_elem? xs i ≡ some (get_or xs i d)
  get_elem?-some [] i h = absurd (omega arith)
  get_elem?-some (x ∷ xs) zero h = refl
  get_elem?-some (x ∷ xs) (suc i) h = get_elem?-some xs i (omega arith)

  pub get_or-set_self : (xs : List A) (i : ℕ) (v : A) → i < length xs → get_or (set xs i v) i d ≡ v
  get_or-set_self [] i v h = absurd (omega arith)
  get_or-set_self (x ∷ xs) zero v h = refl
  get_or-set_self (x ∷ xs) (suc i) v h = get_or-set_self xs i v (omega arith)

  pub get_or-set_ne :
      (xs : List A) (i j : ℕ) (v : A) → i ≢ j → get_or (set xs i v) j d ≡ get_or xs j d
  get_or-set_ne [] i j v h = refl
  get_or-set_ne (x ∷ xs) zero zero v h = absurd (h refl)
  get_or-set_ne (x ∷ xs) zero (suc j) v h = refl
  get_or-set_ne (x ∷ xs) (suc i) zero v h = refl
  get_or-set_ne (x ∷ xs) (suc i) (suc j) v h = get_or-set_ne xs i j v (λ e. h (ap suc e))

  -- the default value is read back from any place, inside or not
  pub get_or-set_default : (xs : List A) (i : ℕ) → get_or (set xs i d) i d ≡ d
  get_or-set_default [] i = refl
  get_or-set_default (x ∷ xs) zero = refl
  get_or-set_default (x ∷ xs) (suc i) = get_or-set_default xs i

  pub get_or-replicate : (n i : ℕ) → get_or (replicate n d) i d ≡ d
  get_or-replicate zero i = refl
  get_or-replicate (suc n) zero = refl
  get_or-replicate (suc n) (suc i) = get_or-replicate n i

  -- a read after a write, as one equation
  pub get_or-set :
      (xs : List A) (i j : ℕ) (v : A)
      → i < length xs
      → get_or (set xs i v) j d ≡ (if i == j then v else get_or xs j d)
  get_or-set [] i j v h = absurd (omega arith)
  get_or-set (x ∷ xs) zero zero v h = refl
  get_or-set (x ∷ xs) zero (suc j) v h = ground arith
  get_or-set (x ∷ xs) (suc i) zero v h = ground arith
  get_or-set (x ∷ xs) (suc i) (suc j) v h = ground (arith, get_or-set xs i j v)

-- A predicate at every item of a list.
abbrev pub All {ℓ κ} : {A : Type ℓ} → (A → Type κ) → List A → Type κ
All P [] = Unit
All P (x ∷ xs) = P x × All P xs

-- An item stands in a list, at a place that a proof may look at.
abbrev pub Has : {A : Type 0} → A → List A → Type 0
Has a [] = ⊥
Has a (b ∷ l) = (b ≡ a) ⊎ Has a l

module _ {A : Type 0} (a : A) where
  pub Has-append_left : (l m : List A) → Has a l → Has a (l ++ m)
  Has-append_left (b ∷ l) m (inl e) = inl e
  Has-append_left (b ∷ l) m (inr h) = inr (Has-append_left l m h)
  Has-append_left [] m h = absurd h

  pub Has-append_right : (l m : List A) → Has a m → Has a (l ++ m)
  Has-append_right [] m h = h
  Has-append_right (b ∷ l) m h = inr (Has-append_right l m h)

pub Has-map : {A B : Type 0} (f : A → B) (a : A) (l : List A) → Has a l → Has (f a) (map f l)
Has-map f a [] h = absurd h
Has-map f a (b ∷ l) (inl e) = inl (ap f e)
Has-map f a (b ∷ l) (inr h) = inr (Has-map f a l h)
