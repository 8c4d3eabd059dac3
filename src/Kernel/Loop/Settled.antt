-- ===== src/Kernel/Loop/Settled.antt =====
-- The loop of src/main.c beside the tasks that wait for events: what a whole round leaves of them.
use the_polling_express.Base.{
  ℕ, ◌≡◌, Bool, true, false, not, Option, none, some, Bool-cases, inl, inr,
}
use the_polling_express.Base.Int.{ℤ, pos}
use the_polling_express.Base.Outcome.{
  Outcome, ok, assert_failed, out_of_fuel, out_of_bounds, ◌>>=◌, ◌>>◌, kassert, EndsIn, IfEnds,
  IfEnds-bind,
}
use the_polling_express.Kernel.Task.{
  Call, no_call, my_tid, my_parent_tid, yield, exit, shutdown, irq, create_call, send_call,
  receive_call, reply_call, await_event, Context,
}
use the_polling_express.Kernel.Scheduler.{Scheduler, block, add_to_ready_queue, pop_ready_queue}
use the_polling_express.Kernel.Scheduler.Create.{scheduler_add}
use the_polling_express.Kernel.Messages.{
  modify, return_to, syscall_send, syscall_receive, syscall_reply,
}
use the_polling_express.Kernel.Events.{
  Event, break_idle, timer_tick, uart1_rx_intr, uart1_tx_intr, uart2_tx_half_empty,
  uart2_rx_incoming, Events, event_mapping, is_empty, enlist, event_of, await_known,
  syscall_await_event,
}
use the_polling_express.Kernel.Events.Irq.{irq_events, ready_woken, syscall_irq}
use the_polling_express.Kernel.Events.Home.{IsSettled, IsRaised1, IsRaised2}
use the_polling_express.Kernel.Events.Served.{enlist-IsSettled, irq_events-IsSettled}
use the_polling_express.Kernel.Loop.{
  Kernel, Devices, serve_branch, serve_call, is_shutdown, kernel_round,
}

IfEnds-all : {A : Type 0} (P : A → Type 0) (r : Outcome A) → ((a : A) → P a) → IfEnds P r
IfEnds-all P (ok a) f = f a
IfEnds-all P assert_failed f = tt
IfEnds-all P out_of_fuel f = tt
IfEnds-all P out_of_bounds f = tt

IfEnds-of : {A : Type 0} (P : A → Type 0) (r : Outcome A) → EndsIn P r → IfEnds P r
IfEnds-of P (ok a) h = h
IfEnds-of P assert_failed h = tt
IfEnds-of P out_of_fuel h = tt
IfEnds-of P out_of_bounds h = tt

IfEnds-then :
    {A B : Type 0} (Q : B → Type 0) (r : Outcome A) (next : A → Outcome B)
    → ((a : A) → IfEnds Q (next a))
    → IfEnds Q (r >>= next)
IfEnds-then Q r next f =
    IfEnds-bind (λ _. Unit) Q r next (λ a _. f a) (IfEnds-all (λ _. Unit) r (λ _. tt))

abbrev Settled : Scheduler × Events → Type 0
Settled (s, ev) = IsSettled ev

known-Settled :
    (s : Scheduler) (ev : Events) (now cur : ℕ) (idle : ℤ) (event : Event)
    → IsSettled ev
    → is_empty (event_mapping ev event) ≡ true
    → IfEnds Settled (await_known s ev now cur idle event)
unfolding await_known
known-Settled s ev now cur idle break_idle v free = rw free (
    IfEnds-then Settled (return_to s now cur idle) (λ s'. ok (s', enlist ev break_idle cur))
      (λ s'. enlist-IsSettled ev break_idle cur v free))
known-Settled s ev now cur idle timer_tick v free =
    rw free (enlist-IsSettled ev timer_tick cur v free)
known-Settled s ev now cur idle uart1_rx_intr v free =
    rw free (enlist-IsSettled ev uart1_rx_intr cur v free)
known-Settled s ev now cur idle uart1_tx_intr v free =
    rw free (enlist-IsSettled ev uart1_tx_intr cur v free)
known-Settled s ev now cur idle uart2_tx_half_empty v free =
    rw free (enlist-IsSettled ev uart2_tx_half_empty cur v free)
known-Settled s ev now cur idle uart2_rx_incoming v free =
    rw free (enlist-IsSettled ev uart2_rx_incoming cur v free)

taken-Settled :
    (s : Scheduler) (ev : Events) (now cur : ℕ) (idle : ℤ) (event : Event)
    → is_empty (event_mapping ev event) ≡ false
    → IfEnds Settled (await_known s ev now cur idle event)
unfolding await_known
taken-Settled s ev now cur idle event taken = rw (taken, IfEnds) tt

numbered-Settled :
    (s : Scheduler) (ev : Events) (now cur : ℕ) (idle : ℤ) (number : Option Event)
    → IsSettled ev
    → IfEnds Settled (elim number as (λ _. Outcome (Scheduler × Events)) [
      | none ↦ out_of_bounds
      | some event ↦ await_known s ev now cur idle event
    ])
numbered-Settled s ev now cur idle none v = tt
numbered-Settled s ev now cur idle (some event) v =
    elim (Bool-cases (is_empty (event_mapping ev event))) [
      | inl free ↦ known-Settled s ev now cur idle event v free
      | inr taken ↦ taken-Settled s ev now cur idle event taken
    ]

await_event-Settled :
    (s : Scheduler) (ev : Events) (now cur : ℕ) (idle : ℤ) (number : ℕ)
    → IsSettled ev
    → IfEnds Settled (syscall_await_event s ev now cur idle number)
unfolding syscall_await_event
await_event-Settled s ev now cur idle number v =
    numbered-Settled s ev now cur idle (event_of number) v

module _ (k : Kernel) (d : Devices) (v : IsSettled k.events) where
  abbrev Result : Kernel → Type 0
  Result k' = IsSettled k'.events

  alone-Settled :
      (r : Outcome Scheduler) → IfEnds Result (r >>= λ s'. ok (record k { scheduler = s' }))
  alone-Settled r = IfEnds-then Result r (λ s'. ok (record k { scheduler = s' })) (λ s'. v)

  both-Settled :
      (r : Outcome (Scheduler × Events))
      → IfEnds Settled r
      → IfEnds Result (r >>= λ (s', ev'). ok (record { scheduler = s'; events = ev' }))
  both-Settled r h =
      IfEnds-bind Settled Result r (λ (s', ev'). ok (record { scheduler = s'; events = ev' }))
        (λ (s', ev') h'. h') h

  irq-Settled :
      (cur : ℕ)
      → IsRaised2 k.events d.status2
      → IsRaised1 k.events d.status1
      → IfEnds Settled
          (syscall_irq k.scheduler k.events d.timer d.status2 d.status1 d.times d.now cur)
  unfolding syscall_irq
  irq-Settled cur raised2 raised1 =
      IfEnds-bind (λ (ev', _). IsSettled ev') Settled
        (irq_events k.events d.timer d.status2 d.status1)
        (λ (ev', woken).
          (ready_woken k.scheduler d.times woken >>= λ s'.
          (add_to_ready_queue s' d.now cur >>= λ s''. ok (s'', ev'))))
        (λ (ev', woken) h.
          IfEnds-then Settled (ready_woken k.scheduler d.times woken)
            (λ s'. (add_to_ready_queue s' d.now cur >>= λ s''. ok (s'', ev')))
            (λ s'.
              IfEnds-then Settled (add_to_ready_queue s' d.now cur) (λ s''. ok (s'', ev'))
                (λ s''. h)))
        (IfEnds-of (λ (ev', _). IsSettled ev') (irq_events k.events d.timer d.status2 d.status1)
          (irq_events-IsSettled k.events d.timer d.status2 d.status1 v raised2 raised1))

  branch-Settled :
      (cur : ℕ) (call : Call)
      → IsRaised2 k.events d.status2
      → IsRaised1 k.events d.status1
      → IfEnds Result (serve_branch k d cur call)
  unfolding serve_branch
  branch-Settled cur no_call raised2 raised1 = tt
  branch-Settled cur my_tid raised2 raised1 =
      alone-Settled (return_to k.scheduler d.now cur (pos (block k.scheduler.blocks cur).tid))
  branch-Settled cur my_parent_tid raised2 raised1 =
      alone-Settled (return_to k.scheduler d.now cur (block k.scheduler.blocks cur).parent_tid)
  branch-Settled cur yield raised2 raised1 =
      alone-Settled (add_to_ready_queue k.scheduler d.now cur)
  branch-Settled cur exit raised2 raised1 = v
  branch-Settled cur shutdown raised2 raised1 = v
  branch-Settled cur irq raised2 raised1 =
      both-Settled (syscall_irq k.scheduler k.events d.timer d.status2 d.status1 d.times d.now cur)
        (irq-Settled cur raised2 raised1)
  branch-Settled cur (create_call priority name func) raised2 raised1 = alone-Settled (
      scheduler_add k.scheduler d.now priority func (pos (block k.scheduler.blocks cur).tid) name
      >>= λ (s', ret). return_to s' d.later cur ret)
  branch-Settled cur (send_call tid msg rplen) raised2 raised1 =
      alone-Settled (syscall_send k.scheduler d.now cur tid)
  branch-Settled cur (receive_call msglen) raised2 raised1 =
      alone-Settled (syscall_receive k.scheduler d.now cur)
  branch-Settled cur (reply_call tid msg) raised2 raised1 =
      alone-Settled (syscall_reply k.scheduler d.now d.later cur tid msg)
  branch-Settled cur (await_event event) raised2 raised1 =
      both-Settled (syscall_await_event k.scheduler k.events d.now cur d.idle event)
        (await_event-Settled k.scheduler k.events d.now cur d.idle event v)

abbrev Left : Bool × Kernel → Type 0
Left (more, k') = IsSettled k'.events

-- what a round does behind `pop_ready_queue`
abbrev after_pop :
    (ℕ → Context → Context) → Kernel → Devices → Scheduler × ℕ → Outcome (Bool × Kernel)
after_pop run_user k d (s, cur) =
    let ran = modify s.blocks cur (λ t. record t { context = run_user cur t.context }) in
    serve_call (record k { scheduler = record s { blocks = ran } }) d cur >>= λ k'.
    ok (not (is_shutdown (block ran cur).context), k')

after_pop-Left :
    (run_user : ℕ → Context → Context) (k : Kernel) (d : Devices) (s : Scheduler) (cur : ℕ)
    → IsSettled k.events
    → IsRaised2 k.events d.status2
    → IsRaised1 k.events d.status1
    → IfEnds Left (after_pop run_user k d (s, cur))
unfolding serve_call
after_pop-Left run_user k d s cur v raised2 raised1 =
    let ran = modify s.blocks cur (λ t. record t { context = run_user cur t.context }) in
    let k1 : Kernel = record k { scheduler = record s { blocks = ran } } in
    IfEnds-bind (λ (k' : Kernel). IsSettled k'.events) Left
      (serve_branch k1 d cur (block ran cur).context.call)
      (λ k'. ok (not (is_shutdown (block ran cur).context), k')) (λ k' h. h)
      (branch-Settled k1 d v cur (block ran cur).context.call raised2 raised1)

asserted-Left :
    (b : Bool) (r : Outcome (Bool × Kernel)) → IfEnds Left r → IfEnds Left (kassert b >> r)
asserted-Left true r h = h
asserted-Left false r h = tt

-- On settled events and devices whose status names enabled interrupts only, a round of the kernel that
-- ends leaves the events settled, whatever the task does and calls.
pub kernel_round-Settled :
    (run_user : ℕ → Context → Context) (k : Kernel) (d : Devices)
    → IsSettled k.events
    → IsRaised2 k.events d.status2
    → IsRaised1 k.events d.status1
    → IfEnds (λ (_, k'). IsSettled k'.events) (kernel_round run_user k d)
unfolding kernel_round
kernel_round-Settled run_user k d v raised2 raised1 =
    asserted-Left (not d.dropped) (pop_ready_queue k.scheduler >>= after_pop run_user k d) (
      IfEnds-then Left (pop_ready_queue k.scheduler) (after_pop run_user k d)
        (λ (s, cur). after_pop-Left run_user k d s cur v raised2 raised1))
