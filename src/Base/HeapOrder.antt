-- ===== src/Base/HeapOrder.antt =====
-- Binary trees in arrays, as src/common/heap.c and src/kernel/task.c keep them: entry `c` stands below
-- entry `(c - 1) / 2`, and no entry has a lower rank than the one above it.
use mathlib.Core.List.{Perm}
use the_polling_express.Base.{
  ℕ, zero, suc, ◌-◌, ◌/◌, ◌≤◌, ◌<◌, ◌≡◌, ◌≢◌, List, Option, some, take, arith, get_or, length,
}
use the_polling_express.Base.Array.{swap, get_or-swap, length-swap}

abbrev pub parent : ℕ → ℕ
parent i = (i - 1) / 2

module _ {ℓ} {A : Type ℓ} (d : A) (key : A → ℕ) where
  abbrev pub rank : List A → ℕ → ℕ
  rank xs i = key (get_or xs i d)

  -- the first `n` entries are in order
  abbrev pub IsHeap : List A → ℕ → Type 0
  IsHeap xs n = (c : ℕ) → 0 < c → c < n → rank xs (parent c) ≤ rank xs c

  -- the entries below `i` are in order with the one above it
  abbrev pub IsBridged : List A → ℕ → ℕ → Type 0
  IsBridged xs n i = (c : ℕ) → 0 < c → c < n → parent c ≡ i → 0 < i → rank xs (parent i) ≤ rank xs c

  -- Only the entry `i` may have a lower rank than the one above it.
  pub record IsRising (xs : List A) (n i : ℕ) : Type 0 where
    pub inside : i < n
    pub size : n ≤ length xs
    pub edges : (c : ℕ) → 0 < c → c < n → c ≢ i → rank xs (parent c) ≤ rank xs c
    pub bridged : IsBridged xs n i

  -- Only the entry `i` may have a higher rank than those below it.
  pub record IsSinking (xs : List A) (n i : ℕ) : Type 0 where
    pub size : n ≤ length xs
    pub edges : (c : ℕ) → 0 < c → c < n → parent c ≢ i → rank xs (parent c) ≤ rank xs c
    pub bridged : IsBridged xs n i

  -- what a loop leaves: the first `n` entries in order, and the same as before
  abbrev pub Sifted : List A → ℕ → Option (List A) → Type ℓ
  Sifted xs n r =
      (out : List A) × (r ≡ some out)
      × IsHeap out n
      × Perm (take n out) (take n xs)
      × (length out ≡ length xs)

  pub rise :
      (xs : List A) (n i : ℕ)
      → IsRising xs n i
      → 0 < i
      → rank xs i ≤ rank xs (parent i)
      → IsRising (swap d xs i (parent i)) n (parent i)
  rise xs n i v pos below =
      let hi : i < length xs = omega (arith, v.inside, v.size) in
      let hp : parent i < length xs = omega (arith, hi) in
      let at = λ (c : ℕ). get_or-swap d xs i (parent i) c hi hp in
      record {
        inside = omega (arith, v.inside);
        size = omega (arith, length-swap d xs i (parent i), v.size);
        edges = λ c p q r. ground (arith, at c, at (parent c), v.edges c, v.bridged c);
        bridged = λ c p q r s.
            ground (arith, at c, at (parent (parent i)), v.edges c, v.edges (parent i));
      }

  pub risen_top : (xs : List A) (n : ℕ) → IsRising xs n 0 → IsHeap xs n
  risen_top xs n v c p q = v.edges c p q (omega arith)

  pub risen :
      (xs : List A) (n i : ℕ) → IsRising xs n i → rank xs (parent i) ≤ rank xs i → IsHeap xs n
  risen xs n i v above c p q = ground (arith, v.edges c)

  pub sink :
      (xs : List A) (n i j : ℕ)
      → IsSinking xs n i
      → j < n
      → 0 < j
      → parent j ≡ i
      → ((c : ℕ) → 0 < c → c < n → parent c ≡ i → rank xs j ≤ rank xs c)
      → rank xs j ≤ rank xs i
      → IsSinking (swap d xs i j) n j
  sink xs n i j v hj pos child least below =
      let hi : i < length xs = omega (arith, v.size) in
      let hj' : j < length xs = omega (arith, v.size) in
      let at = λ (c : ℕ). get_or-swap d xs i j c hi hj' in
      record {
        size = omega (arith, length-swap d xs i j, v.size);
        edges = λ c p q r. ground (arith, at c, at (parent c), v.edges c, v.bridged j, least c);
        bridged = λ c p q r s. ground (arith, at c, at (parent j), v.edges c);
      }

  pub sunk :
      (xs : List A) (n i : ℕ)
      → IsSinking xs n i
      → ((c : ℕ) → 0 < c → c < n → parent c ≡ i → rank xs i ≤ rank xs c)
      → IsHeap xs n
  sunk xs n i v above c p q = ground (arith, v.edges c, above c)

  root-least_below :
      (k : ℕ) (xs : List A) (n i : ℕ) → IsHeap xs n → i < k → i < n → rank xs 0 ≤ rank xs i
  root-least_below zero xs n i h f p = absurd (omega arith)
  root-least_below (suc k) xs n i h f p = ground (arith, h i, root-least_below k xs n (parent i) h)

  -- the first entry has the lowest rank
  pub root-least : (xs : List A) (n i : ℕ) → IsHeap xs n → i < n → rank xs 0 ≤ rank xs i
  root-least xs n i h p = root-least_below (suc i) xs n i h (omega arith) p
