-- ===== src/Common/Heap/Pop.antt =====
-- `heap_peek` and `heap_pop` of src/common/heap.c, and the key 0x00FFFFFF of a missing child.
use mathlib.Core.List.{Perm}
use mathlib.Core.List.Perm
use mathlib.Core.Path.{subst}
use the_polling_express.Base.{
  ℕ, zero, suc, ◌-◌, ◌≤◌, ◌<◌, ◌≡◌, ◌⊎◌, refl, sym, ◌∙◌, Bool, true, false, ◌&&◌, some, List, [],
  ◌∷◌, arith, get_or, set, take, length, length-set, get_or-set, ltb, ◌==◌, Bool-cases, inl, inr,
}
use the_polling_express.Base.Array.{swap, get_or-swap, take-swap_Perm, length-swap, take-snoc}
use the_polling_express.Base.HeapOrder.{parent, rank, IsSinking, Sifted, sink, sunk, root-least}
use the_polling_express.Base.HeapMove.{moved-IsSinking, moved-Perm}
use the_polling_express.Common.Heap.{
  Heap, left, right, no_child, child_key, lower_child, pop_loop, heap_pop, heap_peek,
}
use the_polling_express.Common.Heap.Add.{IsValid, entries}

module _ {A : Type 0} (blank : A) (key : A → ℕ) where
  -- the keys of the first `n` entries are below the key that stands for no child
  abbrev pub AreKeys : List A → ℕ → Type 0
  AreKeys items n = (c : ℕ) → c < n → rank blank key items c < no_child

  -- what the loop exchanges an entry with, unless it stops
  record IsLower (items : List A) (n i j : ℕ) : Type 0 where
    inside : j < n
    pos : 0 < j
    child : parent j ≡ i
    least : (c : ℕ) → 0 < c → c < n → parent c ≡ i → rank blank key items j ≤ rank blank key items c
    below : rank blank key items j ≤ rank blank key items i

  abbrev stops : List A → ℕ → ℕ → Bool
  stops items n i =
      ltb (rank blank key items i) (child_key blank key items n (left i))
      && ltb (rank blank key items i) (child_key blank key items n (right i))

  child_cases : (c i : ℕ) → 0 < c → parent c ≡ i → (c ≡ left i) ⊎ (c ≡ right i)
  child_cases c i p e = ground arith

  lower_child-IsLower :
      (items : List A) (n i : ℕ)
      → i < n
      → AreKeys items n
      → stops items n i ≡ false
      → IsLower items n i (lower_child blank key items n i)
  lower_child-IsLower items n i lt keys go = record {
    inside = ground (arith, keys i lt);
    pos = ground arith;
    child = ground arith;
    least = λ c p q r. ground (arith, child_cases c i p r, keys (left i), keys (right i));
    below = ground (arith, keys i lt);
  }

  stops-above :
      (items : List A) (n i : ℕ)
      → stops items n i ≡ true
      → (c : ℕ) → 0 < c
      → c < n
      → parent c ≡ i
      → rank blank key items i ≤ rank blank key items c
  stops-above items n i stop c p q r = ground (arith, child_cases c i p r)

  swap-AreKeys :
      (items : List A) (n i j : ℕ)
      → i < n
      → j < n
      → n ≤ length items
      → AreKeys items n
      → AreKeys (swap blank items i j) n
  swap-AreKeys items n i j hi hj size keys c lt = ground (
    arith,
    get_or-swap blank items i j c (omega arith) (omega arith),
    keys c lt,
    keys i hi,
    keys j hj,
  )

  pop_loop-Sifted :
      (fuel : ℕ) (items : List A) (n i : ℕ)
      → n - i < fuel
      → AreKeys items n
      → IsSinking blank key items n i
      → Sifted blank key items n (pop_loop blank key fuel items n i)
  unfolding pop_loop
  pop_loop-Sifted zero items n i f keys v = absurd (omega arith)
  pop_loop-Sifted (suc fuel) items n i f keys v = elim (Bool-cases (ltb i n)) [
    | inl inside ↦ elim (Bool-cases (stops items n i)) [
      | inl stop ↦
          rw (inside, stop)
            (
              items,
              refl,
              sunk blank key items n i v (stops-above items n i stop),
              Perm.refl (take n items),
              refl,
            )
      | inr go ↦
          let lt : i < n = ground arith in
          let j = lower_child blank key items n i in
          let low = lower_child-IsLower items n i lt keys go in
          let next = swap blank items i j in
          let (out, e, heap, perm, size) =
            pop_loop-Sifted fuel next n j (omega (arith, low.inside, low.pos, low.child))
              (swap-AreKeys items n i j lt low.inside v.size keys)
              (sink blank key items n i j v low.inside low.pos low.child low.least low.below) in
          rw (inside, go)
            (
              out,
              e,
              heap,
              Perm.trans perm (take-swap_Perm blank n items i j lt low.inside v.size),
              size ∙ length-swap blank items i j,
            )
    ]
    | inr outside ↦ rw outside (
      items,
      refl,
      sunk blank key items n i v (λ c p q r. absurd (ground arith)),
      Perm.refl (take n items),
      refl,
    )
  ]

  -- `heap_peek` gives an item of a valid heap that is not empty, and no item has a lower key.
  pub heap_peek-least :
      (h : Heap A)
      → IsValid blank key h
      → 0 < h.len
      → (heap_peek h blank ≡ some (get_or h.items 0 blank))
        × ((i : ℕ) → i < h.len → rank blank key h.items 0 ≤ rank blank key h.items i)
  unfolding heap_peek
  heap_peek-least h v pos =
      let some_left : (h.len == 0) ≡ false = ground arith in
      (rw some_left, λ i lt. root-least blank key h.items h.len i v.ordered lt)

  abbrev moved : Heap A → List A
  moved h = set h.items 0 (get_or h.items (h.len - 1) blank)

  moved-AreKeys :
      (h : Heap A)
      → IsValid blank key h
      → 2 ≤ h.len
      → AreKeys h.items h.len
      → AreKeys (moved h) (h.len - 1)
  moved-AreKeys h v two keys c lt =
      let v0 = get_or h.items (h.len - 1) blank in
      let inside : 0 < length h.items = omega (arith, v.room) in
      ground (arith, get_or-set blank h.items 0 c v0 inside, keys c, keys (h.len - 1))

  -- On a valid heap that is not empty and whose keys are all below 0x00FFFFFF, `heap_pop` ends, removes
  -- the item that `heap_peek` gives and no other, and leaves a valid heap in a storage of the same size.
  pub heap_pop_lem :
      (h : Heap A)
      → IsValid blank key h
      → 0 < h.len
      → AreKeys h.items h.len
      → (h' : Heap A) × (heap_pop blank key h ≡ some h')
        × IsValid blank key h'
        × Perm (get_or h.items 0 blank ∷ entries blank key h') (entries blank key h)
        × (h'.len ≡ h.len - 1)
        × (length h'.items ≡ length h.items)
  unfolding heap_pop
  heap_pop_lem h v pos keys = elim (Bool-cases (ltb h.len 2)) [
    | inl one ↦
        let single : h.len ≡ 1 = ground arith in
        rw one (
          record h { len = 0 },
          refl,
          record { room = omega arith; ordered = λ c p q. absurd (omega arith) },
          subst (λ k. Perm (get_or h.items 0 blank ∷ []) (take k h.items)) (sym single)
              (rw (take-snoc blank 0 h.items (omega (arith, v.room)))
                (Perm.refl (get_or h.items 0 blank ∷ []))),
          omega arith,
          refl,
        )
    | inr more ↦
        let n = h.len - 1 in
        let whole : h.len ≡ suc n = ground arith in
        let pos' : 0 < n = ground arith in
        let room : n < length h.items = omega (arith, v.room) in
        let (out, e, heap, perm, size) =
          pop_loop-Sifted h.len (moved h) n 0 (omega arith) (moved-AreKeys h v (omega arith) keys)
            (moved-IsSinking blank key h.items n room (λ c p q. v.ordered c p (omega arith))) in
        let written = length-set h.items 0 (get_or h.items n blank) in
        rw (more, e)
          (
            record { items = out; len = n },
            refl,
            record { room = omega (arith, size, written, v.room); ordered = heap },
            Perm.trans (Perm.cons (get_or h.items 0 blank) perm) (
                subst (λ k. Perm (get_or h.items 0 blank ∷ take n (moved h)) (take k h.items))
                  (sym whole) (moved-Perm blank h.items n pos' room)),
            refl,
            size ∙ written,
          )
  ]

  -- `heap_pop` on two items of which the second has a key from 0x00FFFFFF on: the loop exchanges that
  -- item with the stale entry behind the heap, which then stands for it.
  pub heap_pop-stale :
      (x y z : A) (rest : List A)
      → no_child ≤ key y
      → heap_pop blank key (record { items = x ∷ y ∷ z ∷ rest; len = 2 })
        ≡ some (record { items = z ∷ y ∷ y ∷ rest; len = 1 })
  unfolding heap_pop pop_loop swap
  heap_pop-stale x y z rest large =
      let stop : ltb (key y) no_child ≡ false = ground arith in rw stop refl
