-- ===== src/User/Shell/Decimal.antt =====
-- src/user/shell.c: the number that `atoi` reads.
use native.Mathlib.Nat.{pow-succ'}
use the_polling_express.Base.{
  ℕ, zero, ◌<◌, ◌≤◌, suc, ◌+◌, ◌*◌, ◌^◌, ◌≡◌, ap, ◌∙◌, false, List, [], ◌∷◌, arith, length, map,
  ◌==◌,
}
use the_polling_express.Base.Int.{pos, to_int, to_int-pos, ◌+ℤ◌, ◌-ℤ◌, ◌*ℤ◌}
use the_polling_express.User.Shell.{atoi, atoi_loop}

-- the digit's character
abbrev pub digit : ℕ → ℕ
digit d = 48 + d

-- the value of a text of digits, by the place of each
abbrev pub value : List ℕ → ℕ
value [] = 0
value (d ∷ ds) = d * 10 ^ length ds + value ds

times_ten : (a p : ℕ) → a * (10 * p) ≡ 10 * (a * p)
times_ten a p = grind arith

place_of : (r d t v : ℕ) → (r * 10 + d) * t + v ≡ r * (10 * t) + (d * t + v)
place_of r d t v = grind arith

place : (r d n v : ℕ) → (r * 10 + d) * 10 ^ n + v ≡ r * 10 ^ suc n + (d * 10 ^ n + v)
place r d n v =
    let next : 10 ^ suc n ≡ 10 * 10 ^ n = pow-succ' 10 n in rw next (place_of r d (10 ^ n) v)

read_digit : (r d : ℕ) → pos r *ℤ pos 10 +ℤ pos (48 + d) -ℤ pos 48 ≡ pos (r * 10 + d)
unfolding ◌*ℤ◌ ◌+ℤ◌ ◌-ℤ◌
read_digit r d = ground arith

le-pow : (a n : ℕ) → a ≤ a * 10 ^ n
le-pow a zero = omega arith
le-pow a (suc n) =
    let next : 10 ^ suc n ≡ 10 * 10 ^ n = pow-succ' 10 n in
    let tenfold : a * (10 * 10 ^ n) ≡ 10 * (a * 10 ^ n) = times_ten a (10 ^ n) in
    rw (next, tenfold) (omega (arith, le-pow a n))

prefix_small : (a n v : ℕ) → a * 10 ^ n + v < 0x80000000 → a < 0x80000000
prefix_small a n v small = omega (arith, small, le-pow a n)

atoi_loop-value :
    (ds : List ℕ) (r : ℕ)
    → r * 10 ^ length ds + value ds < 0x80000000
    → atoi_loop (map digit ds) (pos r) ≡ pos (r * 10 ^ length ds + value ds)
unfolding atoi_loop
atoi_loop-value [] r small = ap pos (omega arith)
atoi_loop-value (d ∷ ds) r small =
    let same = place r d (length ds) (value ds) in
    let left : (r * 10 + d) * 10 ^ length ds + value ds < 0x80000000 = rw same small in
    ap (λ z. atoi_loop (map digit ds) z)
      (ap to_int (read_digit r d) ∙ to_int-pos (r * 10 + d) (prefix_small (r * 10 + d) _ _ left))
    ∙ atoi_loop-value ds (r * 10 + d) left
    ∙ ap pos (place r d (length ds) (value ds))

atoi_loop-digits :
    (ds : List ℕ) → value ds < 0x80000000 → atoi_loop (map digit ds) (pos 0) ≡ pos (value ds)
atoi_loop-digits ds small = atoi_loop-value ds 0 (omega (arith, small)) ∙ ap pos (omega arith)

-- `atoi` reads a text of digits as its value, and as the value's negative behind a minus sign, if the
-- value is below 2^31.
pub atoi-value :
    (d : ℕ) (ds : List ℕ)
    → value (d ∷ ds) < 0x80000000
    → (atoi (map digit (d ∷ ds)) ≡ pos (value (d ∷ ds)))
      × (atoi (45 ∷ map digit (d ∷ ds)) ≡ to_int (pos 0 -ℤ pos (value (d ∷ ds))))
unfolding atoi
atoi-value d ds small =
    let no_sign : (48 + d == 45) ≡ false = ground arith in
    let read = atoi_loop-digits (d ∷ ds) small in
    (rw no_sign read, ap (λ z. to_int (pos 0 -ℤ z)) read)
