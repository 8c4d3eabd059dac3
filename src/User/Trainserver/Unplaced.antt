-- ===== src/User/Trainserver/Unplaced.antt =====
-- src/user/trainserver.c: a switch that the event has no entry for. `shell` of src/user/shell.c lets the
-- numbers from 1 to 256 through.
use the_polling_express.Base.{
  ℕ, ◌+◌, List, ◌∷◌, replicate, ◌≤◌, ◌≡◌, refl, Bool, true, false, some, none, arith, leb, ltb,
  ◌&&◌,
}
use the_polling_express.Base.Array.{swap}
use the_polling_express.Base.Outcome.{assert_failed, ◌>>=◌}
use the_polling_express.Common.Heap.{heap_add, add_loop, heap_init, heap_peek}
use the_polling_express.User.Trainserver.{
  TrainTask, blank, task_time, trains_start, schedule, schedule_branch, build_task, add_task,
}
use the_polling_express.User.Trainserver.Step.{
  handle_switch, handle_worker, partner, send_top, note_branch,
}
use the_polling_express.User.Trainserver.Queue.{is_switch, command, switch_command}

partner-unplaced : (sw : ℕ) → is_switch sw ≡ false → partner sw ≡ none
unfolding is_switch partner
partner-unplaced sw h = ground arith

is_switch-unplaced :
    (sw : ℕ) → is_switch sw ≡ false → (ltb sw 20 ≡ false) × ((leb 153 sw && leb sw 156) ≡ false)
unfolding is_switch
is_switch-unplaced sw h = ground arith

-- a command that is not due before the only one in the heap
heap_add-second :
    (task later : TrainTask) (rest : List TrainTask)
    → task.time ≤ later.time
    → heap_add blank task_time (record { items = task ∷ blank ∷ rest; len = 1 }) later
      ≡ some (record { items = task ∷ later ∷ rest; len = 2 })
unfolding heap_add add_loop swap
heap_add-second task later rest le =
    let keep : ltb later.time task.time ≡ false = ground arith in rw (keep, heap_add, add_loop) refl

-- A server that has just started takes a request for a switch that the event has no entry for, and
-- fails its assertion in the first round in which the worker asks when the command is due.
pub handle_switch-unplaced :
    (track_known : Bool) (sw state time client later : ℕ)
    → is_switch sw ≡ false
    → time ≤ later
    → (handle_switch trains_start sw state time >>= λ s. handle_worker track_known s client later)
      ≡ assert_failed
unfolding trains_start handle_switch schedule schedule_branch build_task add_task heap_add add_loop
    swap heap_init heap_peek handle_worker send_top note_branch
handle_switch-unplaced track_known sw state time client later h le =
    let second =
      heap_add-second (switch_command time sw state 0) (command (time + 20) 32 0 1 1)
        (replicate 98 blank) (omega arith) in
    let due : leb time later ≡ true = ground arith in
    let high : ltb sw 20 ≡ false = (is_switch-unplaced sw h).0 in
    let other : (leb 153 sw && leb sw 156) ≡ false = (is_switch-unplaced sw h).1 in
    rw (partner-unplaced sw h, second, due, handle_worker, high, other) refl
