-- ===== src/Common/Heap/Add.antt =====
-- `heap_add` of src/common/heap.c and the order of the heap.
use mathlib.Core.List.{Perm}
use mathlib.Core.List.Perm
use the_polling_express.Base.{
  ℕ, zero, suc, ◌+◌, ◌≤◌, ◌<◌, ◌≡◌, refl, ◌∙◌, some, List, ◌∷◌, arith, set, take, length,
  length-set, ltb, ◌==◌, Bool-cases, inl, inr,
}
use the_polling_express.Base.Array.{swap, take-swap_Perm, length-swap}
use the_polling_express.Base.HeapOrder.{
  parent, rank, IsHeap, IsRising, Sifted, rise, risen, risen_top,
}
use the_polling_express.Base.HeapMove.{grown-IsRising, grown-Perm}
use the_polling_express.Common.Heap.{Heap, add_loop, heap_add}

module _ {A : Type 0} (blank : A) (key : A → ℕ) where
  -- The heap fits its backing array, and its entries are in order.
  pub record IsValid (h : Heap A) : Type 0 where
    pub room : h.len ≤ length h.items
    pub ordered : IsHeap blank key h.items h.len

  -- the items of a heap
  abbrev pub entries : Heap A → List A
  entries h = take h.len h.items

  add_loop-Sifted :
      (fuel : ℕ) (items : List A) (n i : ℕ)
      → i < fuel
      → IsRising blank key items n i
      → Sifted blank key items n (add_loop blank key fuel items i)
  unfolding add_loop
  add_loop-Sifted zero items n i f v = absurd (omega arith)
  add_loop-Sifted (suc fuel) items n i f v = elim (Bool-cases (i == 0)) [
    | inl top ↦
        let at_top : i ≡ 0 = ground arith in
        rw top (
          items,
          refl,
          risen_top blank key items n (rw at_top at v),
          Perm.refl (take n items),
          refl,
        )
    | inr below ↦
        elim (Bool-cases (ltb (rank blank key items i) (rank blank key items (parent i)))) [
          | inl less ↦
              let next = swap blank items i (parent i) in
              let (out, e, heap, perm, size) =
                add_loop-Sifted fuel next n (parent i) (ground arith)
                  (rise blank key items n i v (ground arith) (ground arith)) in
              rw (below, less)
                (
                  out,
                  e,
                  heap,
                  Perm.trans perm (
                      take-swap_Perm blank n items i (parent i) v.inside (omega (arith, v.inside))
                        v.size),
                  size ∙ length-swap blank items i (parent i),
                )
          | inr settled ↦
              rw (below, settled)
                (
                  items,
                  refl,
                  risen blank key items n i v (ground arith),
                  Perm.refl (take n items),
                  refl,
                )
        ]
  ]

  -- With room in the backing array, `heap_add` ends in a valid heap of the old items and the new one.
  pub heap_add_lem :
      (h : Heap A) (item : A)
      → IsValid h
      → h.len < length h.items
      → (h' : Heap A) × (heap_add blank key h item ≡ some h')
        × IsValid h'
        × Perm (entries h') (item ∷ entries h)
        × (h'.len ≡ h.len + 1)
        × (length h'.items ≡ length h.items)
  unfolding heap_add
  heap_add_lem h item v room =
      let written = set h.items h.len item in
      let size = length-set h.items h.len item in
      let one_more : h.len + 1 ≡ suc h.len = omega arith in
      let (out, e, heap, perm, same) =
        add_loop-Sifted (h.len + 1) written (h.len + 1) h.len (omega arith)
          (rw one_more (grown-IsRising blank key h.items h.len item room v.ordered)) in
      rw (e, heap_add)
        (
          record { items = out; len = h.len + 1 },
          refl,
          record { room = omega (arith, same, size); ordered = heap },
          Perm.trans perm (rw one_more (grown-Perm blank h.items h.len item room)),
          refl,
          same ∙ size,
        )
