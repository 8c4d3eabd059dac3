-- ===== src/Kernel/Events.antt =====
-- src/main.c: `wake_up` and the branch of `kmain` for AwaitEvent. `event_mapping` has an entry for each
-- event; the two bits of `uart1_tx_flag` are `tx_seen` (1) and `cts_seen` (2); the interrupts that
-- `enable_interrupt` and `disable_interrupt` switch are Boolean fields.
pub mod Irq
pub mod Home
pub mod Transmit
pub mod Served
mod Tests
use the_polling_express.Base.{
  ℕ, ◌+◌, ◌-◌, Bool, true, false, ◌&&◌, ◌||◌, Option, none, some, List, [], ◌∷◌, ◌++◌, length, ◌==◌,
  if◌then◌else◌,
}
use the_polling_express.Base.Int.{ℤ, pos}
use the_polling_express.Base.Outcome.{
  Outcome, ok, assert_failed, out_of_bounds, ◌>>=◌, ◌>>◌, kassert,
}
use the_polling_express.Kernel.Scheduler.{Scheduler, add_to_ready_queue}
use the_polling_express.Kernel.Messages.{return_to}

pub data Event : Type 0 where
  break_idle timer_tick uart1_rx_intr uart1_tx_intr uart2_tx_half_empty uart2_rx_incoming : Event

pub record Events : Type 0 where
  pub at_break_idle : Option ℕ
  pub at_timer_tick : Option ℕ
  pub at_uart1_rx_intr : Option ℕ
  pub at_uart1_tx_intr : Option ℕ
  pub at_uart2_tx_half_empty : Option ℕ
  pub at_uart2_rx_incoming : Option ℕ
  pub interrupt_tasks : ℕ
  pub tx_seen : Bool
  pub cts_seen : Bool
  pub uart1_tx_on : Bool
  pub uart1_cts_on : Bool
  pub uart1_rx_on : Bool
  pub uart2_tx_on : Bool
  pub uart2_rx_on : Bool
  pub uart2_rt_on : Bool

unfoldable pub events_start : Events
events_start = record {
  at_break_idle = none;
  at_timer_tick = none;
  at_uart1_rx_intr = none;
  at_uart1_tx_intr = none;
  at_uart2_tx_half_empty = none;
  at_uart2_rx_incoming = none;
  interrupt_tasks = 0;
  tx_seen = false;
  cts_seen = false;
  uart1_tx_on = false;
  uart1_cts_on = false;
  uart1_rx_on = false;
  uart2_tx_on = false;
  uart2_rx_on = false;
  uart2_rt_on = false;
}

-- `event_mapping[event]`
abbrev pub event_mapping : Events → Event → Option ℕ
event_mapping ev break_idle = ev.at_break_idle
event_mapping ev timer_tick = ev.at_timer_tick
event_mapping ev uart1_rx_intr = ev.at_uart1_rx_intr
event_mapping ev uart1_tx_intr = ev.at_uart1_tx_intr
event_mapping ev uart2_tx_half_empty = ev.at_uart2_tx_half_empty
event_mapping ev uart2_rx_incoming = ev.at_uart2_rx_incoming

-- the assignment to it
abbrev pub set_mapping : Events → Event → Option ℕ → Events
set_mapping ev break_idle p = record ev { at_break_idle = p }
set_mapping ev timer_tick p = record ev { at_timer_tick = p }
set_mapping ev uart1_rx_intr p = record ev { at_uart1_rx_intr = p }
set_mapping ev uart1_tx_intr p = record ev { at_uart1_tx_intr = p }
set_mapping ev uart2_tx_half_empty p = record ev { at_uart2_tx_half_empty = p }
set_mapping ev uart2_rx_incoming p = record ev { at_uart2_rx_incoming = p }

-- The task woken, if there is one: `wake_up` returns true then.
unfoldable pub wake_up : Events → Event → Option ℕ × Events
wake_up ev event = elim (event_mapping ev event) [
  | none ↦ (none, ev)
  | some task ↦
      (some task, record (set_mapping ev event none) { interrupt_tasks = ev.interrupt_tasks - 1 })
]

-- The task waits for the event; the interrupts that stand for it are enabled.
unfoldable pub enlist : Events → Event → ℕ → Events
enlist ev event cur =
    let waiting = record (set_mapping ev event (some cur)) {
      interrupt_tasks = ev.interrupt_tasks + 1;
    } in
    elim event [
      | break_idle ↦ ev
      | timer_tick ↦ waiting
      | uart1_rx_intr ↦ record waiting { uart1_rx_on = true }
      | uart1_tx_intr ↦ record waiting {
        uart1_tx_on = true;
        uart1_cts_on = true;
        tx_seen = false;
        cts_seen = false;
      }
      | uart2_tx_half_empty ↦ record waiting { uart2_tx_on = true }
      | uart2_rx_incoming ↦ record waiting { uart2_rx_on = true; uart2_rt_on = true }
    ]

abbrev pub is_empty : Option ℕ → Bool
is_empty none = true
is_empty (some task) = false

-- what AwaitEvent does to the events
unfoldable pub await : Events → Event → ℕ → Outcome Events
unfolding enlist
await ev event cur = do kassert (is_empty (event_mapping ev event)); ok (enlist ev event cur)

-- the value of the enumerator, read back
unfoldable pub event_of : ℕ → Option Event
event_of n =
    if n == 0
    then some break_idle
    else if n == 1
    then some timer_tick
    else if n == 2
    then some uart1_rx_intr
    else if n == 3
    then some uart1_tx_intr
    else if n == 4
    then some uart2_tx_half_empty
    else if n == 5
    then some uart2_rx_incoming
    else none

-- The branch for an event of the array; `idle` is the time that the processor was halted for.
unfoldable pub await_known : Scheduler → Events → ℕ → ℕ → ℤ → Event → Outcome (Scheduler × Events)
unfolding await
await_known s ev now cur idle event = await ev event cur >>= λ ev'. elim event [
  | break_idle ↦ (return_to s now cur idle >>= λ s'. ok (s', ev'))
  | _ ↦ ok (s, ev')
]

-- The whole branch; `event_mapping` has no entry for another number.
unfoldable pub syscall_await_event :
    Scheduler → Events → ℕ → ℕ → ℤ → ℕ → Outcome (Scheduler × Events)
unfolding await_known event_of
syscall_await_event s ev now cur idle number = elim (event_of number) [
  | none ↦ out_of_bounds
  | some event ↦ await_known s ev now cur idle event
]
