-- ===== src/User/Trainserver/Queue.antt =====
-- src/user/trainserver.c: the invariant of the heap of commands, and what scheduling a command does.
use mathlib.Core.List.{Perm}
use the_polling_express.Base.{
  ℕ, ◌+◌, ◌-◌, ◌%◌, ◌<◌, ◌≡◌, refl, Bool, true, Option, none, some, List, ◌∷◌, length, arith, leb,
  ltb, if◌then◌else◌, ◌&&◌,
}
use the_polling_express.Base.Outcome.{EndsIn}
use the_polling_express.Common.Heap.{no_child}
use the_polling_express.Common.Heap.Add.{entries}
use the_polling_express.Common.Heap.Keys.{IsQueue, Holds, Holds-grown, heap_add-IsQueue}
use the_polling_express.User.Trainserver.{
  TrainTask, Trains, blank, task_time, max_train_cmds, build_task, add_task, schedule,
  schedule_branch,
}

-- the commands that wait, in the order of the heap's storage
abbrev pub pending : Trains → List TrainTask
pending s = entries blank task_time s.heap

-- the switches that an event has an entry for
unfoldable pub is_switch : ℕ → Bool
is_switch sw = if ltb sw 20 then true else leb 153 sw && leb sw 156

unfoldable pub has_place : Option ℕ → Bool
unfolding is_switch
has_place none = true
has_place (some sw) = is_switch sw

-- the branch of a command has a place in the event
abbrev pub IsPlaced : TrainTask → Type 0
IsPlaced t = has_place t.branch ≡ true

-- The heap is in order, each node is free or in the heap, and each command can be noted.
pub record IsValid (s : Trains) : Type 0 where
  pub queue : IsQueue blank task_time s.heap
  pub nodes : s.free + s.heap.len ≡ max_train_cmds
  pub storage : length s.heap.items ≡ max_train_cmds
  pub placed : Holds blank task_time IsPlaced s.heap

-- What a call of `build_task` and `heap_add` leaves.
pub record IsAdded (task : TrainTask) (s s' : Trains) : Type 0 where
  pub valid : IsValid s'
  pub added : Perm (pending s') (task ∷ pending s)
  pub free : s'.free + 1 ≡ s.free
  pub reqid : s'.reqid ≡ s.reqid + 1
  pub event : s'.event ≡ s.event

abbrev pub taken : Trains → Trains
taken s = record s { free = s.free - 1; reqid = s.reqid + 1 }

add_task-IsAdded :
    (s : Trains) (task : TrainTask)
    → IsValid s
    → 0 < s.free
    → task.time < no_child
    → IsPlaced task
    → EndsIn (IsAdded task s) (add_task (taken s) task)
unfolding add_task
add_task-IsAdded s task v pos soon place =
    let (h', e, queue, perm, more, size) =
      heap_add-IsQueue blank task_time s.heap task v.queue soon
        (omega (arith, v.nodes, v.storage)) in
    rw e (record {
      valid = record {
        queue = queue;
        nodes = omega (arith, v.nodes, more);
        storage = omega (arith, size, v.storage);
        placed =
            Holds-grown blank task_time IsPlaced s.heap h' task (λ x. hlevel) perm place v.placed;
      };
      added = perm;
      free = omega arith;
      reqid = refl;
      event = refl;
    })

-- a command for a train, or for the switches' current
abbrev pub command : ℕ → ℕ → ℕ → ℕ → ℕ → TrainTask
command time a b len reqid = record {
  time = time;
  a = a % 256;
  b = b % 256;
  len = len;
  branch = none;
  branch_state = 0;
  reqid = reqid;
}

abbrev pub switch_command : ℕ → ℕ → ℕ → ℕ → TrainTask
switch_command time sw state reqid = record (command time (33 + state) sw 2 reqid) {
  branch = some sw;
  branch_state = state;
}

pub schedule-IsAdded :
    (s : Trains) (time a b len : ℕ)
    → IsValid s
    → 0 < s.free
    → time < no_child
    → EndsIn (IsAdded (command time a b len s.reqid) s) (schedule s time a b len)
unfolding schedule build_task has_place
schedule-IsAdded s time a b len v pos soon =
    let free : ltb 0 s.free ≡ true = ground arith in
    rw free (add_task-IsAdded s (command time a b len s.reqid) v pos soon refl)

pub schedule_branch-IsAdded :
    (s : Trains) (time sw state : ℕ)
    → IsValid s
    → 0 < s.free
    → time < no_child
    → is_switch sw ≡ true
    → EndsIn (IsAdded (switch_command time sw state s.reqid) s) (schedule_branch s time sw state)
unfolding schedule_branch build_task has_place
schedule_branch-IsAdded s time sw state v pos soon known =
    let free : ltb 0 s.free ≡ true = ground arith in
    rw free (add_task-IsAdded s (switch_command time sw state s.reqid) v pos soon known)
