-- ===== src/Base/HeapMove.antt =====
-- How a binary tree in an array grows by an entry at its end, and gives up its first entry for its
-- last: what the loops of src/common/heap.c and src/kernel/task.c start from.
use mathlib.Core.List.{Perm}
use mathlib.Core.List.Perm
use the_polling_express.Base.{
  ℕ, suc, ◌<◌, List, ◌∷◌, arith, get_or, set, take, length, length-set, get_or-set,
}
use the_polling_express.Base.Array.{
  length-take_le, take-set, set-Perm, get_or-take, take-snoc, take-set_end, snoc-Perm,
}
use the_polling_express.Base.HeapOrder.{parent, IsHeap, IsRising, IsSinking}

module _ {ℓ} {A : Type ℓ} (d : A) where
  pub grown-Perm :
      (xs : List A) (n : ℕ) (v : A)
      → n < length xs
      → Perm (take (suc n) (set xs n v)) (v ∷ take n xs)
  grown-Perm xs n v room = rw (take-set_end d n xs v room) (snoc-Perm d (take n xs) v)

  pub moved-Perm :
      (xs : List A) (n : ℕ)
      → 0 < n
      → n < length xs
      → Perm (get_or xs 0 d ∷ take n (set xs 0 (get_or xs n d))) (take (suc n) xs)
  moved-Perm xs n pos room =
      let last = get_or xs n d in
      Perm.trans {l₂ = last ∷ take n xs}
        (rw (take-set d n xs 0 last, ← get_or-take d n xs 0 pos)
          (set-Perm d (take n xs) 0 last (omega (arith, length-take_le d n xs (omega arith)))))
        (Perm.symm (rw (take-snoc d n xs room) (snoc-Perm d (take n xs) last)))

module _ {ℓ} {A : Type ℓ} (d : A) (key : A → ℕ) where
  pub grown-IsRising :
      (xs : List A) (n : ℕ) (v : A)
      → n < length xs
      → IsHeap d key xs n
      → IsRising d key (set xs n v) (suc n) n
  grown-IsRising xs n v room heap = record {
    inside = omega arith;
    size = omega (arith, length-set xs n v);
    edges = λ c p q r.
        ground (arith, get_or-set d xs n c v room, get_or-set d xs n (parent c) v room, heap c);
    bridged = λ c p q r s. absurd (omega arith);
  }

  pub moved-IsSinking :
      (xs : List A) (n : ℕ)
      → n < length xs
      → IsHeap d key xs (suc n)
      → IsSinking d key (set xs 0 (get_or xs n d)) n 0
  moved-IsSinking xs n room heap =
      let last = get_or xs n d in
      let inside : 0 < length xs = omega arith in
      record {
        size = omega (arith, length-set xs 0 last);
        edges = λ c p q r. ground (
          arith,
          get_or-set d xs 0 c last inside,
          get_or-set d xs 0 (parent c) last inside,
          heap c,
        );
        bridged = λ c p q r s. absurd (omega arith);
      }
