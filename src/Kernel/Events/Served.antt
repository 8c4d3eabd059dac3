-- ===== src/Kernel/Events/Served.antt =====
-- src/main.c: the branches for AwaitEvent and for interrupts as wholes.
use the_polling_express.Base.{
  ℕ, ◌≡◌, refl, ◌∙◌, Bool, true, Option, none, some, List, [], ◌++◌, arith, Bool-cases, inl, inr,
}
use the_polling_express.Base.Outcome.{Outcome, ok, ◌>>=◌, EndsIn, EndsIn-bind}
use the_polling_express.Kernel.Events.{
  events_start, Event, break_idle, timer_tick, uart1_rx_intr, uart1_tx_intr, uart2_tx_half_empty,
  uart2_rx_incoming, Events, event_mapping, enlist, is_empty, await,
}
use the_polling_express.Kernel.Events.Irq.{
  UartStatus, irq_timer, irq_uart2, irq_uart1_rx, irq_uart1_tx, irq_uart1, irq_events,
}
use the_polling_express.Kernel.Events.Home.{
  IsSettled, Same1, IsRaised1, IsRaised2, timer-IsSettled, timer-Same, uart2-IsSettled,
  uart1_rx-IsSettled,
}
use the_polling_express.Kernel.Events.Transmit.{uart1_tx-IsSettled}

-- the tasks woken before
EndsIn-woken :
    (P : Events → Type 0) (r : Outcome (Events × List ℕ)) (f : List ℕ → List ℕ)
    → EndsIn (λ (ev', _). P ev') r
    → EndsIn (λ (ev', _). P ev') (r >>= λ (ev', woken). ok (ev', f woken))
EndsIn-woken P r f h =
    EndsIn-bind (λ (ev', _). P ev') (λ (ev', _). P ev') r (λ (ev', woken). ok (ev', f woken))
      (λ (ev', woken) k. k) h

uart1-IsSettled :
    (ev : Events) (status : UartStatus)
    → IsSettled ev
    → IsRaised1 ev status
    → EndsIn (λ (ev', _). IsSettled ev') (irq_uart1 ev status)
unfolding irq_uart1
uart1-IsSettled ev status v (rx, tx, cts) = elim (Bool-cases status.here) [
  | inr away ↦ rw away v
  | inl here ↦ rw here (
      EndsIn-bind
        (λ (ev', _).
          IsSettled ev' × (ev'.uart1_tx_on ≡ ev.uart1_tx_on) × (ev'.uart1_cts_on ≡ ev.uart1_cts_on))
        (λ (ev', _). IsSettled ev') (irq_uart1_rx ev status)
        (λ (ev', received).
          (irq_uart1_tx ev' status >>= λ (ev'', sent). ok (ev'', received ++ sent)))
        (λ (ev', received) (v', same_tx, same_cts).
          EndsIn-woken IsSettled (irq_uart1_tx ev' status) (λ sent. received ++ sent)
            (uart1_tx-IsSettled ev' status v' (λ h. same_tx ∙ tx h) (λ h. same_cts ∙ cts h)))
        (uart1_rx-IsSettled ev status v rx))
]

pub irq_events-IsSettled :
    (ev : Events) (timer : Bool) (status2 status1 : UartStatus)
    → IsSettled ev
    → IsRaised2 ev status2
    → IsRaised1 ev status1
    → EndsIn (λ (ev', _). IsSettled ev') (irq_events ev timer status2 status1)
unfolding irq_events
irq_events-IsSettled ev timer status2 status1 v (rt2, rx2, tx2) (rx1, tx1, cts1) =
    let ticked = (irq_timer ev timer).0 in
    let on_tick = (irq_timer ev timer).1 in
    let ((a, b, c), (d, e, f)) = timer-Same ev v timer ev.at_timer_tick refl in
    EndsIn-bind (λ (ev', _). IsSettled ev' × Same1 ticked ev') (λ (ev', _). IsSettled ev')
      (irq_uart2 ticked status2)
      (λ (ev2, on_uart2).
        (irq_uart1 ev2 status1 >>= λ (ev1, on_uart1). ok (ev1, on_tick ++ on_uart2 ++ on_uart1)))
      (λ (ev2, on_uart2) (v', (same_rx, same_tx, same_cts)).
        EndsIn-woken IsSettled (irq_uart1 ev2 status1) (λ on_uart1. on_tick ++ on_uart2 ++ on_uart1)
          (uart1-IsSettled ev2 status1 v'
            (λ h. same_rx ∙ (a ∙ rx1 h), λ h. same_tx ∙ (b ∙ tx1 h), λ h. same_cts ∙ (c ∙ cts1 h))))
      (uart2-IsSettled ticked status2 (timer-IsSettled ev v timer ev.at_timer_tick refl)
        (λ h. d ∙ rt2 h, λ h. e ∙ rx2 h, λ h. f ∙ tx2 h))

nobody : (p : Option ℕ) → is_empty p ≡ true → p ≡ none
nobody none h = refl
nobody (some task) h = ground arith

pub enlist-IsSettled :
    (ev : Events) (event : Event) (cur : ℕ)
    → IsSettled ev
    → is_empty (event_mapping ev event) ≡ true
    → IsSettled (enlist ev event cur)
unfolding enlist
enlist-IsSettled ev break_idle cur v free = v
enlist-IsSettled ev timer_tick cur v free =
    let e = nobody ev.at_timer_tick free in
    let counted = v.count in
    record {
      rx2 = v.rx2;
      rt2 = v.rt2;
      tx2 = v.tx2;
      rx1 = v.rx1;
      tx1 = v.tx1;
      count = omega (arith, rw e at counted);
    }
enlist-IsSettled ev uart1_rx_intr cur v free =
    let e = nobody ev.at_uart1_rx_intr free in
    let counted = v.count in
    record {
      rx2 = v.rx2;
      rt2 = v.rt2;
      tx2 = v.tx2;
      rx1 = refl;
      tx1 = v.tx1;
      count = omega (arith, rw e at counted);
    }
enlist-IsSettled ev uart1_tx_intr cur v free =
    let e = nobody ev.at_uart1_tx_intr free in
    let counted = v.count in
    record {
      rx2 = v.rx2;
      rt2 = v.rt2;
      tx2 = v.tx2;
      rx1 = v.rx1;
      tx1 = (refl, refl, refl);
      count = omega (arith, rw e at counted);
    }
enlist-IsSettled ev uart2_tx_half_empty cur v free =
    let e = nobody ev.at_uart2_tx_half_empty free in
    let counted = v.count in
    record {
      rx2 = v.rx2;
      rt2 = v.rt2;
      tx2 = refl;
      rx1 = v.rx1;
      tx1 = v.tx1;
      count = omega (arith, rw e at counted);
    }
enlist-IsSettled ev uart2_rx_incoming cur v free =
    let e = nobody ev.at_uart2_rx_incoming free in
    let counted = v.count in
    record {
      rx2 = refl;
      rt2 = refl;
      tx2 = v.tx2;
      rx1 = v.rx1;
      tx1 = v.tx1;
      count = omega (arith, rw e at counted);
    }

-- What changes the events: a task that waits for one, or an interrupt, with what the devices say.
pub data EventStep : Type 0 where
  awaits : Event → ℕ → EventStep
  interrupt : Bool → UartStatus → UartStatus → EventStep

abbrev pub event_step : Events → EventStep → Outcome (Events × List ℕ)
event_step ev (awaits event cur) = await ev event cur >>= λ ev'. ok (ev', [])
event_step ev (interrupt timer status2 status1) = irq_events ev timer status2 status1

-- No other task waits for the event, and a status names enabled interrupts only.
abbrev pub IsFair : Events → EventStep → Type 0
IsFair ev (awaits event cur) = is_empty (event_mapping ev event) ≡ true
IsFair ev (interrupt timer status2 status1) = IsRaised2 ev status2 × IsRaised1 ev status1

-- On a settled state, the AwaitEvent of a task for an event that no other waits for, and an interrupt
-- whose status names enabled interrupts only, are served without a failed assertion, and the state
-- stays settled: the interrupts of the UARTs are enabled just while a task waits for them and they have
-- not come, and `interrupt_tasks` counts the tasks that wait.
pub event_step-IsSettled :
    (ev : Events) (step : EventStep)
    → IsSettled ev
    → IsFair ev step
    → EndsIn (λ (ev', _). IsSettled ev') (event_step ev step)
event_step-IsSettled ev (awaits event cur) v free =
    unfold await in rw free (enlist-IsSettled ev event cur v free)
event_step-IsSettled ev (interrupt timer status2 status1) v (raised2, raised1) =
    irq_events-IsSettled ev timer status2 status1 v raised2 raised1

pub start-IsSettled : IsSettled events_start
unfolding events_start
start-IsSettled = record {
  rx2 = refl;
  rt2 = refl;
  tx2 = refl;
  rx1 = refl;
  tx1 = (refl, refl, refl, refl);
  count = refl;
}
