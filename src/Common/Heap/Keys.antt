-- ===== src/Common/Heap/Keys.antt =====
-- The entries of a heap of src/common/heap.c, as a list that forgets their order.
use mathlib.Core.List.{
  Mem, Perm, mem-cons_self, mem-cons_of_mem, eq-or-mem_of_mem-cons, not-mem-nil,
}
use mathlib.Core.List.Perm
use mathlib.Core.Path.{subst}
use mathlib.Core.Logic.Or
use native.Mathlib.Bridge.{le_prop}
use the_polling_express.Base.{
  ℕ, zero, suc, ◌+◌, ◌-◌, ◌≤◌, ◌<◌, ◌≡◌, sym, some, List, [], ◌∷◌, arith, get_or, take, length,
}
use the_polling_express.Base.Array.{get_or-take, length-take_le}
use the_polling_express.Base.HeapOrder.{root-least}
use the_polling_express.Common.Heap.{Heap, heap_add, heap_pop, no_child}
use the_polling_express.Common.Heap.Add.{IsValid, entries, heap_add_lem}
use the_polling_express.Common.Heap.Pop.{AreKeys, heap_pop_lem}

module _ {A : Type 0} (blank : A) (key : A → ℕ) where
  get_or-Mem : (xs : List A) (i : ℕ) → i < length xs → Mem (get_or xs i blank) xs
  get_or-Mem [] i lt = absurd (omega arith)
  get_or-Mem (x ∷ xs) zero lt = mem-cons_self
  get_or-Mem (x ∷ xs) (suc i) lt = mem-cons_of_mem x (get_or-Mem xs i (omega arith))

  -- every entry of the heap satisfies the predicate
  abbrev pub Holds : (A → Type 0) → Heap A → Type 0
  Holds P h = (x : A) → Mem x (entries blank key h) → P x

  -- the key is below the one that stands for no child
  abbrev pub IsKey : A → Type 0
  IsKey x = key x < no_child

  -- The heap fits its storage and is in order, and its keys are below 0x00FFFFFF.
  pub record IsQueue (h : Heap A) : Type 0 where
    pub valid : IsValid blank key h
    pub keys : Holds IsKey h

  IsQueue-AreKeys : (h : Heap A) → IsQueue h → AreKeys blank key h.items h.len
  IsQueue-AreKeys h q c lt =
      let size = length-take_le blank h.len h.items q.valid.room in
      rw (get_or-take blank h.len h.items c lt) at (
        q.keys (get_or (take h.len h.items) c blank)
          (get_or-Mem (take h.len h.items) c (omega (arith, size))))

  pub Holds-grown :
      (P : A → Type 0) (h h' : Heap A) (item : A)
      → ((x : A) → IsProp (P x))
      → Perm (entries blank key h') (item ∷ entries blank key h)
      → P item
      → Holds P h
      → Holds P h'
  Holds-grown P h h' item prop perm here there y m =
      Or.elim (prop y) (eq-or-mem_of_mem-cons ((Perm.mem_iff perm).0 m))
        (λ same. subst P (sym same) here) (there y)

  pub Holds-shrunk :
      (P : A → Type 0) (h h' : Heap A) (item : A)
      → Perm (item ∷ entries blank key h') (entries blank key h)
      → Holds P h
      → Holds P h'
  Holds-shrunk P h h' item perm all x m = all x ((Perm.mem_iff perm).0 (mem-cons_of_mem item m))

  pub Holds-first :
      (P : A → Type 0) (h : Heap A)
      → IsValid blank key h
      → 0 < h.len
      → Holds P h
      → P (get_or h.items 0 blank)
  Holds-first P h v pos all =
      let size = length-take_le blank h.len h.items v.room in
      rw (get_or-take blank h.len h.items 0 pos) at (
        all (get_or (take h.len h.items) 0 blank)
          (get_or-Mem (take h.len h.items) 0 (omega (arith, size))))

  -- what a successful `heap_add` leaves
  pub heap_add-IsQueue :
      (h : Heap A) (item : A)
      → IsQueue h
      → IsKey item
      → h.len < length h.items
      → (h' : Heap A) × (heap_add blank key h item ≡ some h')
        × IsQueue h'
        × Perm (entries blank key h') (item ∷ entries blank key h)
        × (h'.len ≡ h.len + 1)
        × (length h'.items ≡ length h.items)
  heap_add-IsQueue h item q small room =
      let (h', e, v, perm, one_more, size) = heap_add_lem blank key h item q.valid room in
      (
        h',
        e,
        record { valid = v; keys = Holds-grown IsKey h h' item (λ x. le_prop) perm small q.keys },
        perm,
        one_more,
        size,
      )

  -- what `heap_pop` leaves of a heap that is not empty
  pub heap_pop-IsQueue :
      (h : Heap A)
      → IsQueue h
      → 0 < h.len
      → (h' : Heap A) × (heap_pop blank key h ≡ some h')
        × IsQueue h'
        × Perm (get_or h.items 0 blank ∷ entries blank key h') (entries blank key h)
        × (h'.len ≡ h.len - 1)
        × (length h'.items ≡ length h.items)
  heap_pop-IsQueue h q pos =
      let (h', e, v, perm, less, size) =
        heap_pop_lem blank key h q.valid pos (IsQueue-AreKeys h q) in
      (
        h',
        e,
        record { valid = v; keys = Holds-shrunk IsKey h h' (get_or h.items 0 blank) perm q.keys },
        perm,
        less,
        size,
      )

  Mem-index :
      (P : A → Type 0) (xs : List A)
      → ((x : A) → IsProp (P x))
      → ((i : ℕ) → i < length xs → P (get_or xs i blank))
      → (x : A) → Mem x xs
      → P x
  Mem-index P [] prop all x m = absurd (not-mem-nil m)
  Mem-index P (y ∷ ys) prop all x m =
      Or.elim (prop x) (eq-or-mem_of_mem-cons m) (λ same. subst P (sym same) (all 0 (omega arith)))
        (Mem-index P ys prop (λ i lt. all (suc i) (omega arith)) x)

  -- No entry has a lower key than the first one.
  pub first-least :
      (h : Heap A)
      → IsValid blank key h
      → 0 < h.len
      → Holds (λ x. key (get_or h.items 0 blank) ≤ key x) h
  first-least h v pos =
      Mem-index (λ x. key (get_or h.items 0 blank) ≤ key x) (entries blank key h) (λ x. le_prop)
        (λ i lt.
          let inside : i < h.len = omega (arith, length-take_le blank h.len h.items v.room) in
          rw (get_or-take blank h.len h.items i inside)
            (root-least blank key h.items h.len i v.ordered inside))

  pub Holds-empty : (P : A → Type 0) (h : Heap A) → h.len ≡ 0 → Holds P h
  Holds-empty P h empty x m = absurd (not-mem-nil (subst (λ n. Mem x (take n h.items)) empty m))
