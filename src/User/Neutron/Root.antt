-- ===== src/User/Neutron/Root.antt =====
-- The invariant of the two loops of `SquareRoot` (src/user/neutron.c).
use the_polling_express.Base.{
  ℕ, zero, suc, ◌+◌, ◌-◌, ◌*◌, ◌/◌, ◌%◌, ◌≤◌, ◌<◌, ◌≡◌, refl, Option, some, ltb, leb, ◌==◌, arith,
  leb→le, inl, inr, true, false, ◌⊎◌, ◌∙◌,
}
use the_polling_express.Base.Check.{every, every_sound}
use native.Mathlib.Nat.{mul-le-mul}
use the_polling_express.Base.Outcome.{ok, ◌>>=◌, finished, EndsIn}
use the_polling_express.User.Neutron.{u32_mod, one_loop, root_loop, root_fuel, square_root}

-- the bit of the root that a round decides
abbrev bit : ℕ → ℕ
bit zero = 1
bit (suc k) = 2 * bit k

square_add : (a b : ℕ) → (a + b) * (a + b) ≡ a * a + 2 * (a * b) + b * b
square_add a b = grind arith

mul_add : (a b c : ℕ) → (a + b) * c ≡ a * c + b * c
mul_add a b c = grind arith

square_double : (b : ℕ) → 2 * b * (2 * b) ≡ 4 * (b * b)
square_double b = grind arith

square_mono : (a b : ℕ) → a ≤ b → a * a ≤ b * b
square_mono a b h = mul-le-mul h h

bit_pos : (k : ℕ) → 0 < bit k
bit_pos zero = omega arith
bit_pos (suc k) = omega (arith, bit_pos k)

mul_double : (a b : ℕ) → a * (2 * b) ≡ 2 * (a * b)
mul_double a b = grind arith

-- no sum of a round wraps
no_wrap : (p b : ℕ) → 0 < b → p + 2 * b ≤ 65536 → 2 * (p * b) + 2 * (b * b) < u32_mod
no_wrap p b pos fits = omega (
  arith,
  square_mono (p + 2 * b) 65536 fits,
  square_add p (2 * b),
  square_double b,
  mul_double p b,
  square_mono 1 b pos,
)

-- A round that sets the bit, and one that does not, from the partial root `p`.
set_round :
    (fuel p b op : ℕ)
    → 0 < b
    → p + 2 * b ≤ 65536
    → 2 * (p * b) + b * b ≤ op
    → root_loop (suc fuel) op (2 * (p * b)) (b * b)
      ≡ root_loop fuel (op - (2 * (p * b) + b * b)) ((p + b) * b) (b * b / 4)
unfolding root_loop
set_round fuel p b op pos fits above =
    let room = no_wrap p b pos fits in
    let real : (b * b == 0) ≡ false = ground (arith, square_mono 1 b pos) in
    let sum : (2 * (p * b) + b * b) % u32_mod ≡ 2 * (p * b) + b * b = omega (arith, room) in
    let yes_set : leb (2 * (p * b) + b * b) op ≡ true = ground arith in
    let next : (2 * (p * b) + 2 * (b * b) % u32_mod) % u32_mod / 2 ≡ (p + b) * b =
      omega (arith, room, mul_add p b b) in
    rw (real, sum, yes_set, next) refl

clear_round :
    (fuel p b op : ℕ)
    → 0 < b
    → p + 2 * b ≤ 65536
    → op < 2 * (p * b) + b * b
    → root_loop (suc fuel) op (2 * (p * b)) (b * b) ≡ root_loop fuel op (p * b) (b * b / 4)
unfolding root_loop
clear_round fuel p b op pos fits below =
    let room = no_wrap p b pos fits in
    let real : (b * b == 0) ≡ false = ground (arith, square_mono 1 b pos) in
    let sum : (2 * (p * b) + b * b) % u32_mod ≡ 2 * (p * b) + b * b = omega (arith, room) in
    let not_set : leb (2 * (p * b) + b * b) op ≡ false = ground arith in
    let next : 2 * (p * b) / 2 ≡ p * b = omega arith in rw (real, sum, not_set, next) refl

-- What the loop ends with.
abbrev IsRoot : ℕ → Option ℕ → Type 0
IsRoot x found = (r : ℕ) × (found ≡ some r) × (r * r ≤ x) × (x < (r + 1) * (r + 1))

double_step : (p b : ℕ) → p + 2 * b + 2 * b ≡ p + 2 * (2 * b)
double_step p b = omega arith

le_or_lt : (a b : ℕ) → (a ≤ b) ⊎ (b < a)
le_or_lt a b = omega arith

root_loop-end : (fuel op res : ℕ) → root_loop (suc fuel) op res 0 ≡ some res
unfolding root_loop
root_loop-end fuel op res = refl

-- The last round decides the lowest bit.
root_loop-last :
    (fuel x p op : ℕ)
    → p + 2 ≤ 65536
    → op + p * p ≡ x
    → x < (p + 2) * (p + 2)
    → IsRoot x (root_loop (suc (suc fuel)) op (2 * (p * 1)) (1 * 1))
root_loop-last fuel x p op fits sum below = elim (le_or_lt (2 * (p * 1) + 1 * 1) op) [
  | inl above ↦ (
    (p + 1) * 1,
    set_round (suc fuel) p 1 op (omega arith) fits above
        ∙ root_loop-end fuel (op - (2 * (p * 1) + 1 * 1)) ((p + 1) * 1),
    omega (arith, square_add p 1),
    omega (arith, square_add p 1),
  )
  | inr under ↦ (
    p * 1,
    clear_round (suc fuel) p 1 op (omega arith) fits under ∙ root_loop-end fuel op (p * 1),
    omega arith,
    omega (arith, square_add p 1),
  )
]

root_loop-IsRoot :
    (k fuel x p op : ℕ)
    → k < fuel
    → p + 2 * bit k ≤ 65536
    → op + p * p ≡ x
    → x < (p + 2 * bit k) * (p + 2 * bit k)
    → IsRoot x (root_loop (suc fuel) op (2 * (p * bit k)) (bit k * bit k))
root_loop-IsRoot k zero x p op more fits sum below = absurd (omega arith)
root_loop-IsRoot zero (suc fuel) x p op more fits sum below =
    root_loop-last fuel x p op fits sum below
root_loop-IsRoot (suc k) (suc fuel) x p op more fits sum below =
    let b = bit k in
    let pos : 0 < 2 * b = omega (arith, bit_pos k) in
    let quarter : 2 * b * (2 * b) / 4 ≡ b * b = omega (arith, square_double b) in
    elim (le_or_lt (2 * (p * (2 * b)) + 2 * b * (2 * b)) op) [
      | inl above ↦
          rw (set_round (suc fuel) p (2 * b) op pos fits above, quarter, mul_double (p + 2 * b) b)
            (root_loop-IsRoot k fuel x (p + 2 * b) (op - (2 * (p * (2 * b)) + 2 * b * (2 * b)))
              (omega arith) (omega arith) (omega (arith, square_add p (2 * b)))
              (rw (double_step p b) below))
      | inr under ↦
          rw (clear_round (suc fuel) p (2 * b) op pos fits under, quarter, mul_double p b)
            (root_loop-IsRoot k fuel x p op (omega arith) (omega arith) sum
              (omega (arith, square_add p (2 * b))))
    ]

-- What the first loop ends with: a power of four that has more than a quarter of `x`.
abbrev IsTopBit : ℕ → ℕ → Option ℕ → Type 0
IsTopBit k x found = (j : ℕ) × (found ≡ some (bit j * bit j)) × (j ≤ k) × (x < 4 * (bit j * bit j))

deepen : (k x : ℕ) (found : Option ℕ) → IsTopBit k x found → IsTopBit (suc k) x found
deepen k x found (j, e, le, below) = (j, e, omega arith, below)

-- The first loop divides its power of four until it is not above the argument.
one_loop-ends :
    (k fuel x : ℕ)
    → k < fuel
    → 0 < x
    → x < 4 * (bit k * bit k)
    → IsTopBit k x (one_loop fuel x (bit k * bit k))
unfolding one_loop
one_loop-ends k zero x more pos below = absurd (omega arith)
one_loop-ends zero (suc fuel) x more pos below = (0, ground arith, omega arith, below)
one_loop-ends (suc k) (suc fuel) x more pos below =
    let b = bit k in
    let quarter : 2 * b * (2 * b) / 4 ≡ b * b = omega (arith, square_double b) in
    elim (le_or_lt (2 * b * (2 * b)) x) [
      | inl above ↦
          let stops : ltb x (2 * b * (2 * b)) ≡ false = ground arith in
          (suc k, rw stops refl, omega arith, below)
      | inr under ↦
          let goes_on : ltb x (2 * b * (2 * b)) ≡ true = ground arith in
          rw (goes_on, quarter)
            (deepen k x (one_loop fuel x (bit k * bit k))
              (one_loop-ends k fuel x (omega arith) pos (omega (arith, square_double b))))
    ]

-- `r` is the square root of `x`, rounded down.
abbrev pub IsFloorRoot : ℕ → ℕ → Type 0
IsFloorRoot x r = (r * r ≤ x) × (x < (r + 1) * (r + 1))

square_root_0 : square_root 0 ≡ ok 0
unfolding square_root one_loop root_loop
square_root_0 = refl

bit_fits : (j : ℕ) → j ≤ 15 → 2 * bit j ≤ 65536
unfolding every
bit_fits j le =
    leb→le (2 * bit j) 65536 (every_sound (λ i. leb (2 * bit i) 65536) 16 j (omega arith) refl)

root-EndsIn : (x : ℕ) (found : Option ℕ) → IsRoot x found → EndsIn (IsFloorRoot x) (finished found)
root-EndsIn x found (r, e, le, below) = rw e (le, below)

root-from_top :
    (x : ℕ) (found : Option ℕ)
    → IsTopBit 15 x found
    → EndsIn (IsFloorRoot x) (finished found >>= λ one. finished (root_loop root_fuel x 0 one))
root-from_top x found (j, e, le, below) =
    let start : 0 ≡ 2 * (0 * bit j) = omega arith in
    rw (e, start)
      (root-EndsIn x (root_loop root_fuel x (2 * (0 * bit j)) (bit j * bit j)) (
        root_loop-IsRoot j 16 x 0 x (omega arith) (omega (arith, bit_fits j le)) (omega arith)
          (omega (arith, square_double (bit j)))))

square_root-IsFloorRoot_pos : (x : ℕ) → 0 < x → x < u32_mod → EndsIn (IsFloorRoot x) (square_root x)
unfolding square_root
square_root-IsFloorRoot_pos x pos fits =
    root-from_top x (one_loop root_fuel x 0x40000000)
      (one_loop-ends 15 root_fuel x (omega arith) pos (omega arith))

-- `SquareRoot` returns for every 32-bit argument, and its result is the square root, rounded down.
pub square_root-IsFloorRoot : (x : ℕ) → x < u32_mod → EndsIn (IsFloorRoot x) (square_root x)
square_root-IsFloorRoot zero fits = rw square_root_0 (omega arith, omega arith)
square_root-IsFloorRoot (suc x) fits = square_root-IsFloorRoot_pos (suc x) (omega arith) fits
