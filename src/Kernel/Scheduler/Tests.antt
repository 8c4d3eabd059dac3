-- ===== src/Kernel/Scheduler/Tests.antt =====
-- Runs of the scheduler of src/kernel/task.c on three descriptors: `idle`, a task that is ready with it,
-- and a task that is to be made ready.
use mathlib.Core.List.{Perm}
use the_polling_express.Base.{
  ℕ, zero, suc, ◌<◌, ◌≡◌, ◌≢◌, none, List, [], ◌∷◌, arith, get_or, replicate,
}
use the_polling_express.Base.Int.{ℤ, pos, negsuc}
use the_polling_express.Base.HeapOrder.{IsHeap}
use the_polling_express.Base.Outcome.{ok}
use the_polling_express.Kernel.Task.{Tcb, no_tcb, ready}
use the_polling_express.Kernel.Scheduler.{Scheduler, block, add_to_ready_queue, pop_ready_queue}
use the_polling_express.Kernel.Scheduler.Create.{scheduler_init}
use the_polling_express.Kernel.Scheduler.Order.{urgency, Precedes}
use the_polling_express.Kernel.Scheduler.Ready.{AreInRange}
use the_polling_express.Kernel.Scheduler.Queue.{
  IsQueue, entries, stamped, add_to_ready_queue_lem, pop_ready_queue_lem,
}

abbrev task : ℕ → ℤ → ℕ → Tcb
task tid priority time = record no_tcb {
  tid = tid;
  priority = priority;
  state = ready;
  added_time = time;
}

abbrev three : List Tcb
three = task 0 (negsuc 98) 90 ∷ task 1 (pos 5) 80 ∷ task 2 (pos 100) 0 ∷ []

abbrev before : Scheduler
before = record {
  blocks = three;
  free_tcb = none;
  capacity = 3;
  ready_queue = 1 ∷ 0 ∷ 0 ∷ [];
  count = 2;
}

three-AreInRange : AreInRange three
three-AreInRange zero = record { low = omega arith; high = omega arith; time = omega arith }
three-AreInRange (suc zero) = record { low = omega arith; high = omega arith; time = omega arith }
three-AreInRange (suc (suc zero)) = record {
  low = omega arith;
  high = omega arith;
  time = omega arith;
}
three-AreInRange (suc (suc (suc p))) = record {
  low = omega arith;
  high = omega arith;
  time = omega arith;
}

abbrev task_urgency : ℕ → ℕ
task_urgency p = urgency (block three p)

before-IsHeap : IsHeap 0 task_urgency before.ready_queue 2
unfolding urgency
before-IsHeap zero p lt = omega arith
before-IsHeap (suc zero) p lt = omega arith
before-IsHeap (suc (suc c)) p lt = omega arith

before-IsQueue : IsQueue before
before-IsQueue = record {
  room = omega arith;
  bounded = omega arith;
  ranges = three-AreInRange;
  ordered = before-IsHeap;
}

fresh : (i : ℕ) → i < 2 → get_or before.ready_queue i 0 ≢ 2
fresh zero lt = omega arith
fresh (suc zero) lt = omega arith
fresh (suc (suc i)) lt = omega arith

add_to_ready_queue_example :
    (s' : Scheduler) × (add_to_ready_queue before 70 2 ≡ ok s')
    × IsQueue s'
    × Perm (entries s') (2 ∷ entries before)
    × (s'.blocks ≡ stamped before 70 2)
    × (s'.count ≡ 3)
    × (s'.capacity ≡ 3)
    × (s'.free_tcb ≡ none)
add_to_ready_queue_example =
    add_to_ready_queue_lem before 70 2 before-IsQueue (omega arith) (omega arith) (omega arith)
      fresh

pop_ready_queue_example :
    (s' : Scheduler) × (t : ℕ) × (pop_ready_queue before ≡ ok (s', t))
    × IsQueue s'
    × Perm (t ∷ entries s') (entries before)
    × (s'.blocks ≡ three)
    × ((i : ℕ) → i < 2 → Precedes (block three t) (block three (get_or (1 ∷ 0 ∷ 0 ∷ []) i 0)))
pop_ready_queue_example = pop_ready_queue_lem before before-IsQueue (omega arith)

abbrev blank : Tcb
blank = record no_tcb { task_name = replicate 30 0 }

-- the kernel with three descriptors, before any task
abbrev empty : Scheduler
empty = scheduler_init 3 (blank ∷ blank ∷ blank ∷ []) (0 ∷ 0 ∷ 0 ∷ [])
