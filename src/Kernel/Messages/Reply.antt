-- ===== src/Kernel/Messages/Reply.antt =====
-- Reply of `kmain` in src/main.c to a task that waits for one.
use mathlib.Core.List.{Perm}
use mathlib.Core.List.Perm
use mathlib.Core.Logic.Or
use the_polling_express.Base.{ℕ, ◌+◌, ◌≡◌, ◌≢◌, List, ◌∷◌, length}
use the_polling_express.Base.Int.{ℤ, pos}
use the_polling_express.Kernel.Task.{Tcb, ready, set_return}
use the_polling_express.Kernel.Scheduler.{Scheduler, block}
use the_polling_express.Kernel.Scheduler.Queue.{IsQueue, entries}
use the_polling_express.Kernel.Messages.{msg_copy, room}

-- A task whose descriptor changes by `f` and that is made ready then.
pub record Woken (s s' : Scheduler) (t : ℕ) (f : Tcb → Tcb) : Type 0 where
  pub queue : IsQueue s'
  pub added : Perm (entries s') (t ∷ entries s)
  pub count : s'.count ≡ s.count + 1
  pub capacity : s'.capacity ≡ s.capacity
  pub size : length s'.blocks ≡ length s.blocks
  pub state : (block s'.blocks t).state ≡ (f (block s.blocks t)).state
  pub context : (block s'.blocks t).context ≡ (f (block s.blocks t)).context
  pub others : (p : ℕ) → p ≢ t → block s'.blocks p ≡ block s.blocks p

-- the bytes that the code writes to the task `t`
abbrev answer : Scheduler → ℕ → List ℕ → List ℕ
answer s t bytes = msg_copy bytes (room (block s.blocks t).context.call)

abbrev answered : List ℕ → Tcb → Tcb
answered copied u = record u {
  state = ready;
  context = set_return (record u.context { reply_msg = copied }) (pos (length copied));
}

abbrev returned : ℤ → Tcb → Tcb
returned value u = record u { context = set_return u.context value }
