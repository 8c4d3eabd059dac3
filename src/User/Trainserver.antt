-- ===== src/User/Trainserver.antt =====
-- src/user/trainserver.c, `task_trainserver`: commands to the track wait in a heap until they are due,
-- and the worker that owns the serial line asks for the next one. A request is one round of the
-- server's loop, `Receive` to the end of the loop's body. The chain of free nodes is its length. A
-- byte of the sensors is eight entries of a list of Booleans, with `sensors[a] & 0x80 >> b` as entry
-- 8a + b. Times, speeds and switch numbers are not negative; the request number does not overflow.
pub mod Step
pub mod Queue
pub mod Plan
pub mod Switch
pub mod Worker
pub mod Round
pub mod Edges
pub mod Unplaced
pub mod Client
mod Tests
use the_polling_express.Base.{
  ℕ, ◌+◌, ◌-◌, ◌*◌, ◌/◌, ◌%◌, Bool, true, false, ◌&&◌, ◌||◌, not, Option, none, some, List, [], ◌∷◌,
  set, replicate, leb, ltb, ◌==◌, if◌then◌else◌,
}
use the_polling_express.Base.Outcome.{Outcome, ok, ◌>>=◌, ◌>>◌, kassert, finished}
use the_polling_express.Common.Heap.{Heap, heap_init, heap_add}

abbrev pub max_train_cmds : ℕ
max_train_cmds = 100

-- `branch` -1 is `none`. `branch_state` is only read with a branch.
pub record TrainTask : Type 0 where
  pub time : ℕ
  pub a : ℕ
  pub b : ℕ
  pub len : ℕ
  pub branch : Option ℕ
  pub branch_state : ℕ
  pub reqid : ℕ

pub record TrainEvent : Type 0 where
  pub time : ℕ
  pub sensors : List Bool
  pub branch_a : List ℕ
  pub branch_b : List ℕ

-- The server's variables; a task id of -1 is `none`.
pub record Trains : Type 0 where
  pub heap : Heap TrainTask
  pub free : ℕ
  pub reqid : ℕ
  pub sensors : List Bool
  pub sensor_dirty : Bool
  pub sensor_waiting : Option ℕ
  pub branch_dirty : Bool
  pub branch_waiting : Option ℕ
  pub event : TrainEvent

abbrev pub task_time : TrainTask → ℕ
task_time t = t.time

-- what stands in the storage at the start, and what a read outside of it gives
abbrev pub blank : TrainTask
blank = record { time = 0; a = 0; b = 0; len = 0; branch = none; branch_state = 0; reqid = 0 }

unfoldable pub trains_start : Trains
unfolding heap_init
trains_start = record {
  heap = heap_init (replicate max_train_cmds blank);
  free = max_train_cmds;
  reqid = 0;
  sensors = replicate 80 false;
  sensor_dirty = false;
  sensor_waiting = none;
  branch_dirty = false;
  branch_waiting = none;
  event = record {
    time = 0;
    sensors = replicate 80 false;
    branch_a = replicate 20 2;
    branch_b = replicate 4 2;
  };
}

-- The bytes are `unsigned char`.
unfoldable pub build_task : Trains → ℕ → ℕ → ℕ → ℕ → Outcome (TrainTask × Trains)
build_task s time a b len = do
  kassert (ltb 0 s.free)
  ok (
    record {
      time = time;
      a = a % 256;
      b = b % 256;
      len = len;
      branch = none;
      branch_state = 0;
      reqid = s.reqid;
    },
    record s { free = s.free - 1; reqid = s.reqid + 1 },
  )

-- `heap_add(&h, task)`
unfoldable pub add_task : Trains → TrainTask → Outcome Trains
add_task s task =
    finished (heap_add blank task_time s.heap task) >>= λ heap. ok (record s { heap = heap })

-- `heap_add(&h, build_task(&free, ...))`
unfoldable pub schedule : Trains → ℕ → ℕ → ℕ → ℕ → Outcome Trains
unfolding build_task add_task
schedule s time a b len = do (task, s') ← build_task s time a b len; add_task s' task

-- a command for a switch, whose branch is set between the two calls
unfoldable pub schedule_branch : Trains → ℕ → ℕ → ℕ → Outcome Trains
unfolding build_task add_task
schedule_branch s time sw state = do
  (task, s') ← build_task s time (33 + state) sw 2
  add_task s' (record task { branch = some sw; branch_state = state })

-- `x | 16`
unfoldable pub with_light : ℕ → ℕ
with_light x = if x / 16 % 2 == 0 then x + 16 else x
