-- ===== src/Common/Heap/Tests.antt =====
-- src/common/heap.c at concrete inputs: items that are their own keys.
use mathlib.Core.List.{Perm}
use the_polling_express.Base.{ℕ, ◌+◌, ◌-◌, ◌≡◌, refl, some, [], ◌∷◌, arith, length}
use the_polling_express.Common.Heap.{Heap, heap_add, heap_pop}
use the_polling_express.Common.Heap.Add.{IsValid, entries, heap_add_lem}
use the_polling_express.Common.Heap.Pop.{AreKeys, heap_pop_lem, heap_pop-stale}

abbrev same_key : ℕ → ℕ
same_key n = n

abbrev three : Heap ℕ
three = record { items = 2 ∷ 7 ∷ 5 ∷ 0 ∷ []; len = 3 }

three-IsValid : IsValid 0 same_key three
three-IsValid = record { room = omega arith; ordered = λ c p q. grind arith }

three-AreKeys : AreKeys 0 same_key three.items 3
three-AreKeys c lt = grind arith

add_one : heap_add 0 same_key three 1 ≡ some (record { items = 1 ∷ 2 ∷ 5 ∷ 7 ∷ []; len = 4 })
unfolding heap_add
add_one = refl

pop_one : heap_pop 0 same_key three ≡ some (record { items = 5 ∷ 7 ∷ 5 ∷ 0 ∷ []; len = 2 })
unfolding heap_pop
pop_one = refl

heap_add_example :
    (h' : Heap ℕ) × (heap_add 0 same_key three 1 ≡ some h')
    × IsValid 0 same_key h'
    × Perm (entries 0 same_key h') (1 ∷ entries 0 same_key three)
    × (h'.len ≡ 3 + 1)
    × (length h'.items ≡ 4)
heap_add_example = heap_add_lem 0 same_key three 1 three-IsValid (omega arith)

heap_pop_example :
    (h' : Heap ℕ) × (heap_pop 0 same_key three ≡ some h')
    × IsValid 0 same_key h'
    × Perm (2 ∷ entries 0 same_key h') (entries 0 same_key three)
    × (h'.len ≡ 3 - 1)
    × (length h'.items ≡ 4)
heap_pop_example = heap_pop_lem 0 same_key three three-IsValid (omega arith) three-AreKeys

heap_pop-stale_example :
    heap_pop 0 same_key (record { items = 1 ∷ 0x1000000 ∷ 3 ∷ []; len = 2 })
    ≡ some (record { items = 3 ∷ 0x1000000 ∷ 0x1000000 ∷ []; len = 1 })
heap_pop-stale_example = heap_pop-stale 0 same_key 1 0x1000000 3 [] (omega arith)
