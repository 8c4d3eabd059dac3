-- ===== src/Kernel/Scheduler/Ready.antt =====
-- The ready queue of src/kernel/task.c as a heap: the loop of `add_to_ready_queue`, and
-- `top_down_heapify`.
use mathlib.Core.List.Perm
use the_polling_express.Base.{
  ℕ, zero, suc, ◌+◌, ◌-◌, ◌*◌, ◌≤◌, ◌<◌, ◌≡◌, ◌⊎◌, refl, ◌∙◌, true, false, ◌&&◌, List, arith, take,
  ltb, ◌==◌, if◌then◌else◌, Bool-cases, inl, inr,
}
use the_polling_express.Base.Array.{swap, take-swap_Perm, length-swap}
use the_polling_express.Base.HeapOrder.{
  parent, rank, IsRising, IsSinking, Sifted, rise, risen, risen_top, sink, sunk,
}
use the_polling_express.Kernel.Task.{Tcb}
use the_polling_express.Kernel.Scheduler.{block, is_above, largest, top_down_heapify, rise_loop}
use the_polling_express.Kernel.Scheduler.Order.{IsInRange, urgency, is_above_iff}

abbrev pub AreInRange : List Tcb → Type 0
AreInRange blocks = (p : ℕ) → IsInRange (block blocks p)

module _ (blocks : List Tcb) (ranges : AreInRange blocks) where
  -- the urgency of the task that a pointer points to
  abbrev pub key : ℕ → ℕ
  key p = urgency (block blocks p)

  above :
      (queue : List ℕ) (a b : ℕ)
      → is_above blocks queue a b ≡ true
      → rank 0 key queue a < rank 0 key queue b
  above queue a b = (is_above_iff blocks queue a b (ranges _) (ranges _)).0

  not_above :
      (queue : List ℕ) (a b : ℕ)
      → is_above blocks queue a b ≡ false
      → rank 0 key queue b ≤ rank 0 key queue a
  not_above queue a b h = grind (arith, (is_above_iff blocks queue a b (ranges _) (ranges _)).1)

  pub rise_loop-Sifted :
      (fuel : ℕ) (queue : List ℕ) (n i : ℕ)
      → i < fuel
      → IsRising 0 key queue n i
      → Sifted 0 key queue n (rise_loop fuel blocks queue i)
  unfolding rise_loop
  rise_loop-Sifted zero queue n i f v = absurd (omega arith)
  rise_loop-Sifted (suc fuel) queue n i f v = elim (Bool-cases (i == 0)) [
    | inl top ↦
        let at_top : i ≡ 0 = ground arith in
        rw top
          (queue, refl, risen_top 0 key queue n (rw at_top at v), Perm.refl (take n queue), refl)
    | inr below ↦ elim (Bool-cases (is_above blocks queue i (parent i))) [
      | inl up ↦
          let less = above queue i (parent i) up in
          let (out, e, heap, perm, size) =
            rise_loop-Sifted fuel (swap 0 queue i (parent i)) n (parent i) (ground arith)
              (rise 0 key queue n i v (ground arith) (omega (arith, less))) in
          rw (below, up)
            (
              out,
              e,
              heap,
              Perm.trans perm
                  (take-swap_Perm 0 n queue i (parent i) v.inside (omega (arith, v.inside)) v.size),
              size ∙ length-swap 0 queue i (parent i),
            )
      | inr settled ↦
          rw (below, settled)
            (
              queue,
              refl,
              risen 0 key queue n i v (not_above queue i (parent i) settled),
              Perm.refl (take n queue),
              refl,
            )
    ]
  ]

  -- what `largest` chooses: the entry or one of those below it, with the lowest rank of them
  record IsLargest (queue : List ℕ) (n i m : ℕ) : Type 0 where
    place : (m ≡ i) ⊎ ((m < n) × (0 < m) × (parent m ≡ i))
    least : (c : ℕ) → 0 < c → c < n → parent c ≡ i → rank 0 key queue m ≤ rank 0 key queue c
    below : rank 0 key queue m ≤ rank 0 key queue i

  child_cases : (c i : ℕ) → 0 < c → parent c ≡ i → (c ≡ 2 * i + 1) ⊎ (c ≡ 2 * i + 2)
  child_cases c i p e = ground arith

  -- the test of `top_down_heapify` for one of the two entries below, against the choice so far
  choose-least :
      (queue : List ℕ) (n c m : ℕ)
      → let chosen = if ltb c n && is_above blocks queue c m then c else m in
        ((chosen ≡ c) × (c < n) ⊎ (chosen ≡ m))
        × (rank 0 key queue chosen ≤ rank 0 key queue m)
        × (c < n → rank 0 key queue chosen ≤ rank 0 key queue c)
  choose-least queue n c m = elim (Bool-cases (ltb c n)) [
    | inl inside ↦ elim (Bool-cases (is_above blocks queue c m)) [
      | inl up ↦
          let less = above queue c m up in
          rw (inside, up) (inl (refl, ground arith), omega (arith, less), λ h. omega arith)
      | inr not_up ↦ rw (inside, not_up) (inr refl, omega arith, λ h. not_above queue c m not_up)
    ]
    | inr outside ↦ rw outside (inr refl, omega arith, λ h. absurd (ground arith))
  ]

  choices-IsLargest :
      (queue : List ℕ) (n i m big : ℕ)
      → ((m ≡ 2 * i + 1) × (2 * i + 1 < n) ⊎ (m ≡ i))
        × (rank 0 key queue m ≤ rank 0 key queue i)
        × (2 * i + 1 < n → rank 0 key queue m ≤ rank 0 key queue (2 * i + 1))
      → ((big ≡ 2 * i + 2) × (2 * i + 2 < n) ⊎ (big ≡ m))
        × (rank 0 key queue big ≤ rank 0 key queue m)
        × (2 * i + 2 < n → rank 0 key queue big ≤ rank 0 key queue (2 * i + 2))
      → IsLargest queue n i big
  choices-IsLargest queue n i m big (at_m, low_m, least_m) (at_big, low_big, least_big) = record {
    place = elim at_big [
      | inl (e, inside) ↦ inr (omega arith, omega arith, omega arith)
      | inr same ↦ elim at_m [
        | inl (e, inside) ↦ inr (omega arith, omega arith, omega arith)
        | inr stays ↦ inl (same ∙ stays)
      ]
    ];
    least = λ c p q r. elim (child_cases c i p r) [
      | inl left ↦ rw left (omega (arith, low_big, least_m (rw left at q)))
      | inr right ↦ rw right (least_big (rw right at q))
    ];
    below = omega (arith, low_m, low_big);
  }

  largest-IsLargest : (queue : List ℕ) (n i : ℕ) → IsLargest queue n i (largest blocks queue n i)
  unfolding largest
  largest-IsLargest queue n i =
      let m = if ltb (2 * i + 1) n && is_above blocks queue (2 * i + 1) i then 2 * i + 1 else i in
      choices-IsLargest queue n i m (largest blocks queue n i) (choose-least queue n (2 * i + 1) i)
        (choose-least queue n (2 * i + 2) m)

  pub top_down_heapify-Sifted :
      (fuel : ℕ) (queue : List ℕ) (n i : ℕ)
      → i < n
      → n - i < fuel
      → IsSinking 0 key queue n i
      → Sifted 0 key queue n (top_down_heapify fuel blocks queue n i)
  unfolding top_down_heapify
  top_down_heapify-Sifted zero queue n i lt f v = absurd (omega arith)
  top_down_heapify-Sifted (suc fuel) queue n i lt f v =
      let m = largest blocks queue n i in
      let low = largest-IsLargest queue n i in
      elim low.place [
        | inl same ↦
            let stop : (m == i) ≡ true = ground arith in
            rw stop (
              queue,
              refl,
              sunk 0 key queue n i v (rw same at low.least),
              Perm.refl (take n queue),
              refl,
            )
        | inr (inside, pos, child) ↦
            let go : (m == i) ≡ false = ground arith in
            let (out, e, heap, perm, size) =
              top_down_heapify-Sifted fuel (swap 0 queue i m) n m inside (omega arith)
                (sink 0 key queue n i m v inside pos child low.least low.below) in
            rw go (
              out,
              e,
              heap,
              Perm.trans perm (take-swap_Perm 0 n queue i m lt inside v.size),
              size ∙ length-swap 0 queue i m,
            )
      ]
