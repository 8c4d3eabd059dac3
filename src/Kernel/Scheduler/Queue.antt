-- ===== src/Kernel/Scheduler/Queue.antt =====
-- What `add_to_ready_queue` and `pop_ready_queue` of src/kernel/task.c do to the tasks that are ready.
use mathlib.Core.List.{Perm}
use mathlib.Core.List.Perm
use mathlib.Core.Path.{subst}
use the_polling_express.Base.{
  ℕ, suc, ◌+◌, ◌-◌, ◌≤◌, ◌<◌, ◌≡◌, ◌≢◌, refl, sym, ◌∙◌, true, false, List, [], ◌∷◌, arith, get_or,
  set, take, length, length-set, get_or-set, ltb, ◌==◌, Bool-cases, inl, inr,
}
use the_polling_express.Base.Array.{take-snoc}
use the_polling_express.Base.HeapOrder.{parent, IsHeap, root-least}
use the_polling_express.Base.HeapMove.{grown-IsRising, grown-Perm, moved-IsSinking, moved-Perm}
use the_polling_express.Base.Outcome.{ok}
use the_polling_express.Kernel.Task.{Tcb, no_tcb}
use the_polling_express.Kernel.Scheduler.{Scheduler, block, add_to_ready_queue, pop_ready_queue}
use the_polling_express.Kernel.Scheduler.Order.{urgency, Precedes, urgency-Precedes}
use the_polling_express.Kernel.Scheduler.Ready.{
  AreInRange, rise_loop-Sifted, top_down_heapify-Sifted,
}

-- The queue fits its array, its tasks are in order, and the descriptors are within the ranges of C.
pub record IsQueue (s : Scheduler) : Type 0 where
  pub room : s.capacity ≤ length s.ready_queue
  pub bounded : s.count ≤ s.capacity
  pub ranges : AreInRange s.blocks
  pub ordered : IsHeap 0 (λ p. urgency (block s.blocks p)) s.ready_queue s.count

-- the pointers in the queue
abbrev pub entries : Scheduler → List ℕ
entries s = take s.count s.ready_queue

-- the descriptors after `read_timer`
abbrev pub stamped : Scheduler → ℕ → ℕ → List Tcb
stamped s now t = set s.blocks t (record (block s.blocks t) { added_time = now })

stamped-block :
    (s : Scheduler) (now t p : ℕ)
    → p ≢ t
    → t < length s.blocks
    → block (stamped s now t) p ≡ block s.blocks p
stamped-block s now t p ne lt =
    let same : (t == p) ≡ false = ground arith in
    get_or-set no_tcb s.blocks t p (record (block s.blocks t) { added_time = now }) lt
    ∙ rw same refl

stamped-AreInRange :
    (s : Scheduler) (now t : ℕ)
    → AreInRange s.blocks
    → now < 0x100000000
    → t < length s.blocks
    → AreInRange (stamped s now t)
stamped-AreInRange s now t ranges early lt p = elim (Bool-cases (t == p)) [
  | inl same ↦
      let e = get_or-set no_tcb s.blocks t p (record (block s.blocks t) { added_time = now }) lt in
      rw (e, same) (record { low = (ranges t).low; high = (ranges t).high; time = early })
  | inr other ↦ rw (stamped-block s now t p (ground arith) lt) (ranges p)
]

-- the order of the queue does not see the descriptor of a task that is not in it
stamped-IsHeap :
    (s : Scheduler) (now t : ℕ)
    → IsQueue s
    → t < length s.blocks
    → ((i : ℕ) → i < s.count → get_or s.ready_queue i 0 ≢ t)
    → IsHeap 0 (λ p. urgency (block (stamped s now t) p)) s.ready_queue s.count
stamped-IsHeap s now t q lt fresh c p below =
    rw
      (
        stamped-block s now t (get_or s.ready_queue c 0) (fresh c below) lt,
        stamped-block s now t (get_or s.ready_queue (parent c) 0) (fresh (parent c) (omega arith))
            lt,
      )
      (q.ordered c p below)

-- With room in the queue, a task that is not in it and a time of the timer, `add_to_ready_queue` ends in
-- a queue in order, of the same capacity, that holds the task besides those before, with the time in its
-- descriptor, and the same list of free descriptors.
pub add_to_ready_queue_lem :
    (s : Scheduler) (now t : ℕ)
    → IsQueue s
    → s.count < s.capacity
    → now < 0x100000000
    → t < length s.blocks
    → ((i : ℕ) → i < s.count → get_or s.ready_queue i 0 ≢ t)
    → (s' : Scheduler) × (add_to_ready_queue s now t ≡ ok s')
      × IsQueue s'
      × Perm (entries s') (t ∷ entries s)
      × (s'.blocks ≡ stamped s now t)
      × (s'.count ≡ s.count + 1)
      × (s'.capacity ≡ s.capacity)
      × (s'.free_tcb ≡ s.free_tcb)
unfolding add_to_ready_queue
add_to_ready_queue_lem s now t q room early lt fresh =
    let inside : s.count < length s.ready_queue = omega (arith, q.room) in
    let written = set s.ready_queue s.count t in
    let size = length-set s.ready_queue s.count t in
    let one_more : s.count + 1 ≡ suc s.count = omega arith in
    let ranges = stamped-AreInRange s now t q.ranges early lt in
    let (queue, e, heap, perm, same) =
      rise_loop-Sifted (stamped s now t) ranges (s.count + 1) written (s.count + 1) s.count
        (omega arith)
        (rw one_more (
          grown-IsRising 0 _ s.ready_queue s.count t inside (stamped-IsHeap s now t q lt fresh))) in
    let space : ltb s.count s.capacity ≡ true = ground arith in
    rw (space, e)
      (
        record s { blocks = stamped s now t; ready_queue = queue; count = s.count + 1 },
        refl,
        record {
          room = omega (arith, same, size, q.room);
          bounded = omega arith;
          ranges = ranges;
          ordered = heap;
        },
        Perm.trans perm (rw one_more (grown-Perm 0 s.ready_queue s.count t inside)),
        refl,
        refl,
        refl,
        refl,
      )

-- `pop_ready_queue` on a queue in order that is not empty ends, takes out one task and no other, which is
-- to run before each task of the queue, and leaves a queue in order.
pub pop_ready_queue_lem :
    (s : Scheduler)
    → IsQueue s
    → 0 < s.count
    → (s' : Scheduler) × (t : ℕ) × (pop_ready_queue s ≡ ok (s', t))
      × IsQueue s'
      × Perm (t ∷ entries s') (entries s)
      × (s'.blocks ≡ s.blocks)
      × ((i : ℕ)
          → i < s.count
          → Precedes (block s.blocks t) (block s.blocks (get_or s.ready_queue i 0)))
unfolding pop_ready_queue
pop_ready_queue_lem s q pos =
    let some_ready : ltb 0 s.count ≡ true = ground arith in
    let first = get_or s.ready_queue 0 0 in
    let least = λ (i : ℕ) (lt : i < s.count).
      urgency-Precedes (block s.blocks first) (block s.blocks (get_or s.ready_queue i 0))
        (q.ranges first) (q.ranges (get_or s.ready_queue i 0))
        (root-least 0 (λ p. urgency (block s.blocks p)) s.ready_queue s.count i q.ordered lt) in
    elim (Bool-cases (s.count == 1)) [
      | inl one ↦
          let single : s.count ≡ 1 = ground arith in
          rw (some_ready, one)
            (
              record s { count = 0 },
              first,
              refl,
              record {
                room = q.room;
                bounded = omega arith;
                ranges = q.ranges;
                ordered = λ c p b. absurd (omega arith);
              },
              subst (λ k. Perm (first ∷ []) (take k s.ready_queue)) (sym single)
                  (rw (take-snoc 0 0 s.ready_queue (omega (arith, q.room, q.bounded)))
                    (Perm.refl (first ∷ []))),
              refl,
              least,
            )
      | inr more ↦
          let n = s.count - 1 in
          let whole : s.count ≡ suc n = ground arith in
          let pos' : 0 < n = ground arith in
          let inside : n < length s.ready_queue = omega (arith, q.room, q.bounded) in
          let moved = set s.ready_queue 0 (get_or s.ready_queue n 0) in
          let (queue, e, heap, perm, same) =
            top_down_heapify-Sifted s.blocks q.ranges s.count moved n 0 pos' (omega arith) (
              moved-IsSinking 0 (λ p. urgency (block s.blocks p)) s.ready_queue n inside
                (λ c p b. q.ordered c p (omega arith))) in
          let written = length-set s.ready_queue 0 (get_or s.ready_queue n 0) in
          rw (some_ready, more, e)
            (
              record s { ready_queue = queue; count = n },
              first,
              refl,
              record {
                room = omega (arith, same, written, q.room);
                bounded = omega (arith, q.bounded);
                ranges = q.ranges;
                ordered = heap;
              },
              Perm.trans (Perm.cons first perm) (
                  subst (λ k. Perm (first ∷ take n moved) (take k s.ready_queue)) (sym whole)
                    (moved-Perm 0 s.ready_queue n pos' inside)),
              refl,
              least,
            )
    ]
