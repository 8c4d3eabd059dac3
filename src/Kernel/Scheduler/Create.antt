-- ===== src/Kernel/Scheduler/Create.antt =====
-- `scheduler_init` and `scheduler_add` of src/kernel/task.c: the list of free descriptors, and a new
-- task on the first of them. The name is the bytes before its 0.
use the_polling_express.Base.{ℕ, ◌+◌, none, some, List, [], ◌∷◌, set, ◌==◌, if◌then◌else◌}
use the_polling_express.Base.Int.{ℤ, pos, negsuc}
use the_polling_express.Base.Outcome.{Outcome, ok, out_of_bounds, ◌>>=◌}
use the_polling_express.Common.MyString.{strncpy}
use the_polling_express.Kernel.Task.{Tcb, ready, zombie, init_user_task}
use the_polling_express.Kernel.Scheduler.{Scheduler, block, add_to_ready_queue}

abbrev pub eno_task_descriptors : ℤ
eno_task_descriptors = negsuc 1

abbrev pub max_task_name_len : ℕ
max_task_name_len = 30

-- both loops of `scheduler_init`, from the descriptor `i`
unfoldable pub init_blocks : ℕ → ℕ → List Tcb → List Tcb
init_blocks cap i [] = []
init_blocks cap i (t ∷ rest) =
    let next = if i + 1 == cap then none else some (i + 1) in
    record t { state = zombie; tid = i; want_send = none; want_send_end = none; next = next }
    ∷ init_blocks cap (i + 1) rest

-- The arrays have `cap` entries.
unfoldable pub scheduler_init : ℕ → List Tcb → List ℕ → Scheduler
unfolding init_blocks
scheduler_init cap blocks ready_queue = record {
  blocks = init_blocks cap 0 blocks;
  free_tcb = some 0;
  capacity = cap;
  ready_queue = ready_queue;
  count = 0;
}

-- the assignments to the new descriptor
abbrev created : ℤ → ℕ → ℤ → List ℕ → Tcb → Tcb
created priority func parent_tid name t = record t {
  next = none;
  parent_tid = parent_tid;
  priority = priority;
  state = ready;
  task_name = name;
  context = init_user_task func;
}

-- A name that does not fit its field is written over what lies behind it.
unfoldable pub scheduler_add : Scheduler → ℕ → ℤ → ℕ → ℤ → List ℕ → Outcome (Scheduler × ℤ)
unfolding add_to_ready_queue strncpy
scheduler_add s now priority func parent_tid name = elim s.free_tcb [
  | none ↦ ok (s, eno_task_descriptors)
  | some t ↦ elim (strncpy (block s.blocks t).task_name name max_task_name_len) [
    | none ↦ out_of_bounds
    | some copied ↦ do
      let free = (block s.blocks t).next
      let blocks = set s.blocks t (created priority func parent_tid copied (block s.blocks t))
      s' ← add_to_ready_queue (record s { blocks = blocks; free_tcb = free }) now t
      ok (s', pos (block s'.blocks t).tid)
  ]
]
