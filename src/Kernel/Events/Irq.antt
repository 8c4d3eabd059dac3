-- ===== src/Kernel/Events/Irq.antt =====
-- src/main.c: the branch of `kmain` for interrupts. What the device registers say is an argument. The
-- handler gives the tasks that it wakes, in order, to the scheduler.
use the_polling_express.Base.{
  ℕ, Bool, true, false, ◌&&◌, ◌||◌, Option, none, some, List, [], ◌∷◌, ◌++◌, length, if◌then◌else◌,
}
use the_polling_express.Base.Int.{pos}
use the_polling_express.Base.Outcome.{Outcome, ok, assert_failed, ◌>>=◌}
use the_polling_express.Kernel.Scheduler.{Scheduler, add_to_ready_queue}
use the_polling_express.Kernel.Messages.{return_to}
use the_polling_express.Kernel.Events.{
  Event, Events, wake_up, timer_tick, uart1_rx_intr, uart1_tx_intr, uart2_tx_half_empty,
  uart2_rx_incoming,
}

-- What a UART's registers say at an interrupt: whether it is from this UART, the bits RIS, RTIS, TIS
-- and MIS, and the modem's bits DCTS and CTS.
pub record UartStatus : Type 0 where
  pub here : Bool
  pub ris : Bool
  pub rtis : Bool
  pub tis : Bool
  pub mis : Bool
  pub dcts : Bool
  pub cts : Bool

-- a wake-up that asserts that a task waits, and then what is disabled
unfoldable pub wake_or_fail : Events → Event → (Events → Events) → Outcome (Events × List ℕ)
unfolding wake_up
wake_or_fail ev event disable =
    let (woken, ev') = wake_up ev event in
    elim woken [ none ↦ assert_failed | some task ↦ ok (disable ev', task ∷ []) ]

abbrev pub as_list : Option ℕ → List ℕ
as_list none = []
as_list (some task) = task ∷ []

unfoldable pub irq_timer : Events → Bool → Events × List ℕ
unfolding wake_up
irq_timer ev timer =
    if timer then (let (woken, ev') = wake_up ev timer_tick in (ev', as_list woken)) else (ev, [])

unfoldable pub irq_uart2 : Events → UartStatus → Outcome (Events × List ℕ)
unfolding wake_or_fail
irq_uart2 ev status =
    if status.here
    then (if status.rtis || status.ris
        then wake_or_fail ev uart2_rx_incoming
            (λ e. record e { uart2_rx_on = false; uart2_rt_on = false })
        else if status.tis
        then wake_or_fail ev uart2_tx_half_empty (λ e. record e { uart2_tx_on = false })
        else ok (ev, []))
    else ok (ev, [])

unfoldable pub irq_uart1_rx : Events → UartStatus → Outcome (Events × List ℕ)
unfolding wake_or_fail
irq_uart1_rx ev status =
    if status.ris
    then wake_or_fail ev uart1_rx_intr (λ e. record e { uart1_rx_on = false })
    else ok (ev, [])

-- the two tests that set bits of `uart1_tx_flag`
unfoldable pub note_tx : Events → UartStatus → Events
note_tx ev status =
    let sent = if status.tis then record ev { tx_seen = true; uart1_tx_on = false } else ev in
    if status.mis && (status.dcts && status.cts)
    then record sent { cts_seen = true; uart1_cts_on = false }
    else sent

unfoldable pub irq_uart1_tx : Events → UartStatus → Outcome (Events × List ℕ)
unfolding note_tx wake_or_fail
irq_uart1_tx ev status =
    let noted = note_tx ev status in
    if noted.tx_seen && noted.cts_seen
    then wake_or_fail noted uart1_tx_intr (λ e. record e { tx_seen = false; cts_seen = false })
    else ok (noted, [])

unfoldable pub irq_uart1 : Events → UartStatus → Outcome (Events × List ℕ)
unfolding irq_uart1_rx irq_uart1_tx
irq_uart1 ev status =
    if status.here
    then (irq_uart1_rx ev status >>= λ (ev', received).
        (irq_uart1_tx ev' status >>= λ (ev'', sent). ok (ev'', received ++ sent)))
    else ok (ev, [])

-- the tests of the branch for interrupts, with the tasks that they wake
unfoldable pub irq_events : Events → Bool → UartStatus → UartStatus → Outcome (Events × List ℕ)
unfolding irq_timer irq_uart2 irq_uart1
irq_events ev timer status2 status1 =
    let (ticked, on_tick) = irq_timer ev timer in
    do
      (ev2, on_uart2) ← irq_uart2 ticked status2
      (ev1, on_uart1) ← irq_uart1 ev2 status1
      ok (ev1, on_tick ++ on_uart2 ++ on_uart1)

-- The woken tasks return 0 and are made ready; `times` gives the value of the timer at each, by the
-- number of those behind it.
unfoldable pub ready_woken : Scheduler → (ℕ → ℕ) → List ℕ → Outcome Scheduler
ready_woken s times [] = ok s
ready_woken s times (task ∷ rest) = do
  s' ← return_to s (times (length rest)) task (pos 0)
  ready_woken s' times rest

-- The whole branch; `now` is the value of the timer when `cur` is made ready.
unfoldable pub syscall_irq :
    Scheduler
    → Events
    → Bool
    → UartStatus
    → UartStatus
    → (ℕ → ℕ)
    → ℕ
    → ℕ
    → Outcome (Scheduler × Events)
unfolding irq_events ready_woken add_to_ready_queue
syscall_irq s ev timer status2 status1 times now cur = do
  (ev', woken) ← irq_events ev timer status2 status1
  s' ← ready_woken s times woken
  s'' ← add_to_ready_queue s' now cur
  ok (s'', ev')
