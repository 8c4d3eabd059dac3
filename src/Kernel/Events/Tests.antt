-- ===== src/Kernel/Events/Tests.antt =====
-- The events of src/main.c at concrete inputs.
use the_polling_express.Base.{◌≡◌, refl, true, false, some, [], ◌∷◌, arith}
use the_polling_express.Base.Outcome.{assert_failed, EndsIn}
use the_polling_express.Kernel.Events.{
  uart1_tx_intr, uart2_rx_incoming, Events, events_start, enlist,
}
use the_polling_express.Kernel.Events.Irq.{UartStatus, irq_events}
use the_polling_express.Kernel.Events.Home.{IsSettled}
use the_polling_express.Kernel.Events.Served.{interrupt, event_step, IsFair, event_step-IsSettled}

abbrev silent : UartStatus
silent = record {
  here = false;
  ris = false;
  rtis = false;
  tis = false;
  mis = false;
  dcts = false;
  cts = false;
}

-- task 3 waits to send on UART1, and task 4 for a character from UART2
abbrev waiting : Events
waiting = enlist (enlist events_start uart1_tx_intr 3) uart2_rx_incoming 4

abbrev received : UartStatus
received = record silent { here = true; rtis = true }

-- the transmitter is empty, and then the line is clear
abbrev emptied : UartStatus
emptied = record silent { here = true; tis = true }

abbrev cleared : UartStatus
cleared = record silent { here = true; mis = true; dcts = true; cts = true }

abbrev both : UartStatus
both = record emptied { mis = true; dcts = true; cts = true }

waiting-IsSettled : IsSettled waiting
unfolding events_start enlist
waiting-IsSettled = record {
  rx2 = refl;
  rt2 = refl;
  tx2 = refl;
  rx1 = refl;
  tx1 = (refl, refl, refl);
  count = refl;
}

wakes_both :
    EndsIn
      (λ (ev', woken). (woken ≡ 4 ∷ 3 ∷ []) × (ev'.interrupt_tasks ≡ 0))
      (irq_events waiting false received both)
unfolding events_start enlist irq_events
wakes_both = (refl, refl)

half_way :
    EndsIn
      (λ (ev', woken). (woken ≡ []) × (ev'.tx_seen ≡ true) × (ev'.at_uart1_tx_intr ≡ some 3))
      (irq_events waiting false silent emptied)
unfolding events_start enlist irq_events
half_way = (refl, refl, refl)

nobody_home : irq_events events_start false received silent ≡ assert_failed
unfolding events_start irq_events
nobody_home = refl

waiting-IsFair : IsFair waiting (interrupt true received cleared)
unfolding events_start enlist
waiting-IsFair =
    ((λ h. refl, λ h. refl, λ h. ground arith), (λ h. ground arith, λ h. refl, λ h. refl))

event_step-IsSettled_example :
    EndsIn (λ (ev', _). IsSettled ev') (event_step waiting (interrupt true received cleared))
event_step-IsSettled_example =
    event_step-IsSettled waiting (interrupt true received cleared) waiting-IsSettled waiting-IsFair
