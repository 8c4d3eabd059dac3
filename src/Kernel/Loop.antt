-- ===== src/Kernel/Loop.antt =====
-- The loop of `kmain` (src/main.c): the next task runs until it traps, and the kernel serves its call.
-- `run_user` is assembly and the code of the task: it is an argument, which gives the context of the
-- task with the call that it makes.
pub mod Settled
mod Tests
use the_polling_express.Base.{
  ℕ, Bool, true, false, List, [], ◌∷◌, ltb, not, ◌==◌, ◌||◌, if◌then◌else◌,
}
use the_polling_express.Base.Int.{ℤ, pos}
use the_polling_express.Base.Outcome.{Outcome, ok, assert_failed, out_of_fuel, ◌>>=◌, ◌>>◌, kassert}
use the_polling_express.Kernel.Task.{
  Call, zombie, no_call, my_tid, my_parent_tid, yield, exit, shutdown, irq, create_call, send_call,
  receive_call, reply_call, await_event, Context,
}
use the_polling_express.Kernel.Scheduler.{Scheduler, block, add_to_ready_queue, pop_ready_queue}
use the_polling_express.Kernel.Scheduler.Create.{scheduler_add}
use the_polling_express.Kernel.Messages.{
  modify, return_to, syscall_send, syscall_receive, syscall_reply,
}
use the_polling_express.Kernel.Events.{Events, syscall_await_event}
use the_polling_express.Kernel.Events.Irq.{UartStatus, syscall_irq}

pub record Kernel : Type 0 where
  pub scheduler : Scheduler
  pub events : Events

-- What a round reads from the devices: whether UART1 has dropped a byte, the timer where the first and the second task are made ready
-- and for the woken tasks, the status of the interrupts, and the time for which the processor halts.
pub record Devices : Type 0 where
  pub dropped : Bool
  pub now : ℕ
  pub later : ℕ
  pub times : ℕ → ℕ
  pub timer : Bool
  pub status2 : UartStatus
  pub status1 : UartStatus
  pub idle : ℤ

-- the branches for the calls
unfoldable pub serve_branch : Kernel → Devices → ℕ → Call → Outcome Kernel
unfolding add_to_ready_queue scheduler_add syscall_send syscall_receive syscall_reply
    syscall_await_event syscall_irq
serve_branch k d cur call =
    let s = k.scheduler in
    let task = block s.blocks cur in
    let with_events : Outcome (Scheduler × Events) → Outcome Kernel =
      λ r. r >>= λ (s', ev'). ok (record { scheduler = s'; events = ev' }) in
    let alone : Outcome Scheduler → Outcome Kernel =
      λ r. r >>= λ s'. ok (record k { scheduler = s' }) in
    elim call [
      | no_call ↦ assert_failed
      | my_tid ↦ alone (return_to s d.now cur (pos task.tid))
      | my_parent_tid ↦ alone (return_to s d.now cur task.parent_tid)
      | yield ↦ alone (add_to_ready_queue s d.now cur)
      | exit ↦
          alone (ok (record s { blocks = modify s.blocks cur (λ t. record t { state = zombie }) }))
      | shutdown ↦ ok k
      | irq ↦ with_events (syscall_irq s k.events d.timer d.status2 d.status1 d.times d.now cur)
      | create_call priority name func ↦ alone (
          scheduler_add s d.now priority func (pos task.tid) name >>= λ (s', ret).
          return_to s' d.later cur ret)
      | send_call tid msg rplen ↦ alone (syscall_send s d.now cur tid)
      | receive_call msglen ↦ alone (syscall_receive s d.now cur)
      | reply_call tid msg ↦ alone (syscall_reply s d.now d.later cur tid msg)
      | await_event event ↦ with_events (syscall_await_event s k.events d.now cur d.idle event)
    ]

unfoldable pub serve_call : Kernel → Devices → ℕ → Outcome Kernel
unfolding serve_branch
serve_call k d cur = serve_branch k d cur (block k.scheduler.blocks cur).context.call

unfoldable pub is_shutdown : Context → Bool
is_shutdown context = elim context.call [ shutdown ↦ true | _ ↦ false ]

-- One round; the Boolean value is false for the `break` of Shutdown.
unfoldable pub kernel_round : (ℕ → Context → Context) → Kernel → Devices → Outcome (Bool × Kernel)
unfolding pop_ready_queue serve_call is_shutdown
kernel_round run_user k d = do
  kassert (not d.dropped)
  (s, cur) ← pop_ready_queue k.scheduler
  let ran = modify s.blocks cur (λ t. record t { context = run_user cur t.context })
  k' ← serve_call (record k { scheduler = record s { blocks = ran } }) d cur
  ok (not (is_shutdown (block ran cur).context), k')

-- the condition of the loop
unfoldable pub goes_on : Kernel → Bool
goes_on k = ltb 1 k.scheduler.count || not (k.events.interrupt_tasks == 0)

-- The loop, for as many rounds as there are readings of the devices.
unfoldable pub kernel_loop : (ℕ → Context → Context) → Kernel → List Devices → Outcome Kernel
unfolding kernel_round goes_on
kernel_loop run_user k [] = if goes_on k then out_of_fuel else ok k
kernel_loop run_user k (d ∷ rest) =
    let next : Outcome Kernel = do
      (more, k') ← kernel_round run_user k d
      let rounds = kernel_loop run_user k' rest
      if more then rounds else ok k'
    in if goes_on k then next else ok k
