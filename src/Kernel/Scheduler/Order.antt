-- ===== src/Kernel/Scheduler/Order.antt =====
-- `cmp_priority` of src/kernel/task.c as an order of numbers: the urgency of a task is lower the sooner
-- it is to run.
use the_polling_express.Base.{ℕ, ◌+◌, ◌-◌, ◌*◌, ◌≤◌, ◌<◌, ◌≡◌, ◌↔◌, ap, true, List, arith}
use the_polling_express.Base.Int.{pos_part, neg_part, ◌≤ℤ◌}
use the_polling_express.Kernel.Task.{Tcb}
use the_polling_express.Kernel.Scheduler.{queued, cmp_priority, is_above}

-- the priority is an `int`, and the time an `unsigned int`
pub record IsInRange (t : Tcb) : Type 0 where
  pub low : neg_part t.priority ≤ 0x80000000
  pub high : pos_part t.priority < 0x80000000
  pub time : t.added_time < 0x100000000

-- The greatest priority first, and of equal ones the greatest time, as one number.
unfoldable pub urgency : Tcb → ℕ
urgency t =
    0x10000000000000000
    - ((pos_part t.priority + 0x80000000 - neg_part t.priority) * 0x100000000 + t.added_time)

-- the task `s` is to run before the task `t`
abbrev pub Precedes : Tcb → Tcb → Type 0
Precedes s t = (t.priority ≤ℤ s.priority) × (t.priority ≡ s.priority → t.added_time ≤ s.added_time)

pub urgency-Precedes :
    (s t : Tcb) → IsInRange s → IsInRange t → urgency s ≤ urgency t → Precedes s t
unfolding urgency
urgency-Precedes s t hs ht le = (omega arith, λ e. omega (arith, ap pos_part e, ap neg_part e))

-- `cmp_priority` answers 1 exactly if the first task is the more urgent one.
pub is_above_iff :
    (blocks : List Tcb) (queue : List ℕ) (a b : ℕ)
    → IsInRange (queued blocks queue a)
    → IsInRange (queued blocks queue b)
    → (is_above blocks queue a b ≡ true)
      ↔ (urgency (queued blocks queue a) < urgency (queued blocks queue b))
unfolding urgency cmp_priority
is_above_iff blocks queue a b ha hb = (λ h. ground arith, λ h. ground arith)
