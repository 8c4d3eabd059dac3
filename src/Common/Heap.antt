-- ===== src/Common/Heap.antt =====
-- src/common/heap.c. `items` is the whole backing array, of which the first `len` entries count. An
-- item stands for what the pointer points to, and `key` for the `int` at its start, which is a time
-- and not negative. `blank` is read outside the array, where the C program has no defined value.
-- A loop returns `none` when the model's fuel runs out.
pub mod Add
pub mod Pop
pub mod Keys
mod Tests
use the_polling_express.Base.{
  ℕ, zero, suc, ◌+◌, ◌-◌, ◌*◌, ◌/◌, Bool, true, false, ◌&&◌, Option, none, some, List, get_or, set,
  ltb, ◌==◌, if◌then◌else◌,
}
use the_polling_express.Base.Array.{swap}
use the_polling_express.Base.HeapOrder.{parent}

pub record Heap {ℓ} (A : Type ℓ) : Type ℓ where
  pub items : List A
  pub len : ℕ

abbrev pub left : ℕ → ℕ
left i = 2 * i + 1

abbrev pub right : ℕ → ℕ
right i = 2 * i + 2

-- 0x00FFFFFF, the key that stands for no child
abbrev pub no_child : ℕ
no_child = 0xFFFFFF

module _ {ℓ} {A : Type ℓ} where
  unfoldable pub heap_init : List A → Heap A
  heap_init backing = record { items = backing; len = 0 }

  unfoldable pub heap_peek : Heap A → A → Option A
  heap_peek h blank = if h.len == 0 then none else some (get_or h.items 0 blank)

module _ {ℓ} {A : Type ℓ} (blank : A) (key : A → ℕ) where
  -- `*(int *)h->items[i]`
  abbrev pub key_at : List A → ℕ → ℕ
  key_at items i = key (get_or items i blank)

  -- the `while (i)` of `heap_add`
  unfoldable pub add_loop : ℕ → List A → ℕ → Option (List A)
  unfolding swap
  add_loop zero items i = none
  add_loop (suc fuel) items i =
      let up = add_loop fuel (swap blank items i (parent i)) (parent i) in
      if i == 0
      then some items
      else if ltb (key_at items i) (key_at items (parent i))
      then up
      else some items

  unfoldable pub heap_add : Heap A → A → Option (Heap A)
  unfolding add_loop
  heap_add h item = elim (add_loop (h.len + 1) (set h.items h.len item) h.len) [
    | none ↦ none
    | some items ↦ some (record { items = items; len = h.len + 1 })
  ]

  -- `a` and `b` of the loop of `heap_pop`
  abbrev pub child_key : List A → ℕ → ℕ → ℕ
  child_key items len j = if ltb j len then key_at items j else no_child

  -- the entry `j` that the loop exchanges with `i`
  abbrev pub lower_child : List A → ℕ → ℕ → ℕ
  lower_child items len i =
      if ltb (child_key items len (left i)) (child_key items len (right i)) then left i else right i

  -- the `while (i < h->len)` of `heap_pop`
  unfoldable pub pop_loop : ℕ → List A → ℕ → ℕ → Option (List A)
  unfolding swap
  pop_loop zero items len i = none
  pop_loop (suc fuel) items len i =
      let j = lower_child items len i in
      let down = pop_loop fuel (swap blank items i j) len j in
      let c = key_at items i in
      if ltb i len
      then (if ltb c (child_key items len (left i)) && ltb c (child_key items len (right i))
          then some items
          else down)
      else some items

  unfoldable pub heap_pop : Heap A → Option (Heap A)
  unfolding pop_loop
  heap_pop h =
      if ltb h.len 2
      then some (record h { len = 0 })
      else (let moved = set h.items 0 (get_or h.items (h.len - 1) blank) in
          elim (pop_loop h.len moved (h.len - 1) 0) [
            | none ↦ none
            | some items ↦ some (record { items = items; len = h.len - 1 })
          ])
