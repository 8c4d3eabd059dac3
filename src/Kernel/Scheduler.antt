-- ===== src/Kernel/Scheduler.antt =====
-- src/kernel/task.c: the free descriptors and the queue of the tasks that are ready, a binary heap of
-- descriptors in the array `_ready_queue`. `read_timer` is an input, `now`: the value of TIMER3, which
-- counts down, so that the earlier of two tasks has the greater `added_time`.

pub mod Order
pub mod Ready
pub mod Queue
pub mod Create
mod Tests
use the_polling_express.Base.{
  ℕ, zero, suc, ◌+◌, ◌-◌, ◌*◌, Bool, true, false, ◌&&◌, Option, none, some, List, get_or, set, ltb,
  ◌==◌, if◌then◌else◌,
}
use the_polling_express.Base.Array.{swap}
use the_polling_express.Base.HeapOrder.{parent}
use the_polling_express.Base.Int.{ℤ, pos, negsuc, ltb_ℤ}
use the_polling_express.Base.Outcome.{
  Outcome, ok, assert_failed, out_of_fuel, ◌>>=◌, ◌>>◌, kassert, finished,
}
use the_polling_express.Kernel.Task.{Tcb, TcbState, ready, no_tcb, init_user_task}

-- the globals of task.c and the array of descriptors
pub record Scheduler : Type 0 where
  pub blocks : List Tcb
  pub free_tcb : Option ℕ
  pub capacity : ℕ
  pub ready_queue : List ℕ
  pub count : ℕ

-- the descriptor that a pointer points to
abbrev pub block : List Tcb → ℕ → Tcb
block blocks p = get_or blocks p no_tcb

-- `_ready_queue[a]`
abbrev pub queued : List Tcb → List ℕ → ℕ → Tcb
queued blocks queue a = block blocks (get_or queue a 0)

unfoldable pub cmp_priority : List Tcb → List ℕ → ℕ → ℕ → ℤ
cmp_priority blocks queue a b =
    let s = queued blocks queue a in
    let t = queued blocks queue b in
    if ltb_ℤ t.priority s.priority
    then pos 1
    else if ltb_ℤ s.priority t.priority
    then negsuc 0
    else if ltb t.added_time s.added_time
    then pos 1
    else negsuc 0

-- `cmp_priority(a, b) == 1`
abbrev pub is_above : List Tcb → List ℕ → ℕ → ℕ → Bool
is_above blocks queue a b = elim (cmp_priority blocks queue a b) [
  | pos n ↦ n == 1
  | negsuc n ↦ false
]

-- `largest` of `top_down_heapify`
unfoldable pub largest : List Tcb → List ℕ → ℕ → ℕ → ℕ
unfolding cmp_priority
largest blocks queue count i =
    let l = 2 * i + 1 in
    let r = 2 * i + 2 in
    let m = if ltb l count && is_above blocks queue l i then l else i in
    if ltb r count && is_above blocks queue r m then r else m

unfoldable pub top_down_heapify : ℕ → List Tcb → List ℕ → ℕ → ℕ → Option (List ℕ)
unfolding largest swap
top_down_heapify zero blocks queue count i = none
top_down_heapify (suc fuel) blocks queue count i =
    let m = largest blocks queue count i in
    let rest = top_down_heapify fuel blocks (swap 0 queue i m) count m in
    if m == i then some queue else rest

-- the `while` of `add_to_ready_queue`
unfoldable pub rise_loop : ℕ → List Tcb → List ℕ → ℕ → Option (List ℕ)
unfolding cmp_priority swap
rise_loop zero blocks queue i = none
rise_loop (suc fuel) blocks queue i =
    let rest = rise_loop fuel blocks (swap 0 queue i (parent i)) (parent i) in
    if i == 0 then some queue else if is_above blocks queue i (parent i) then rest else some queue

unfoldable pub add_to_ready_queue : Scheduler → ℕ → ℕ → Outcome Scheduler
unfolding rise_loop
add_to_ready_queue s now t = do
  kassert (ltb s.count s.capacity)
  let blocks = set s.blocks t (record (block s.blocks t) { added_time = now })
  queue ← finished (rise_loop (s.count + 1) blocks (set s.ready_queue s.count t) s.count)
  ok (record s { blocks = blocks; ready_queue = queue; count = s.count + 1 })

unfoldable pub pop_ready_queue : Scheduler → Outcome (Scheduler × ℕ)
unfolding top_down_heapify
pop_ready_queue s =
    let first = get_or s.ready_queue 0 0 in
    let moved = set s.ready_queue 0 (get_or s.ready_queue (s.count - 1) 0) in
    let rest : Outcome (Scheduler × ℕ) = do
      queue ← finished (top_down_heapify s.count s.blocks moved (s.count - 1) 0)
      ok (record s { ready_queue = queue; count = s.count - 1 }, first)
    in kassert (ltb 0 s.count)
      >> (if s.count == 1 then ok (record s { count = 0 }, first) else rest)

unfoldable pub free_task : Scheduler → ℕ → Scheduler
free_task s t = record s {
  blocks = set s.blocks t (record (block s.blocks t) { next = s.free_tcb });
  free_tcb = some t;
}
