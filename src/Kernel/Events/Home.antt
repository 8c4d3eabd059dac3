-- ===== src/Kernel/Events/Home.antt =====
-- src/main.c: the tasks that wait for events, beside the interrupts that are enabled.
use the_polling_express.Base.{
  ℕ, ◌+◌, ◌≡◌, refl, ◌∙◌, sym, Bool, true, false, not, ◌&&◌, Option, none, some, arith, Bool-cases,
  inl, inr,
}
use the_polling_express.Base.Outcome.{EndsIn}
use the_polling_express.Kernel.Events.{
  uart1_rx_intr, uart2_tx_half_empty, uart2_rx_incoming, Events, wake_up, is_empty,
}
use the_polling_express.Kernel.Events.Irq.{
  UartStatus, wake_or_fail, irq_timer, irq_uart2, irq_uart1_rx,
}

abbrev pub bit : Option ℕ → ℕ
bit none = 0
bit (some task) = 1

abbrev pub Sending : Type 1
Sending = Option ℕ → Bool → Bool → Bool → Bool → Type 0

-- the transmitter of UART1: a task that waits, the interrupts enabled, and the bits seen
abbrev pub IsSending : Sending
IsSending none tx_on cts_on tx_seen cts_seen =
    (tx_on ≡ false) × (cts_on ≡ false) × (tx_seen ≡ false) × (cts_seen ≡ false)
IsSending (some task) tx_on cts_on tx_seen cts_seen =
    (tx_on ≡ not tx_seen) × (cts_on ≡ not cts_seen) × ((tx_seen && cts_seen) ≡ false)

-- the same, before a task is woken for which both bits are seen
abbrev pub IsNoted : Sending
IsNoted none tx_on cts_on tx_seen cts_seen =
    (tx_on ≡ false) × (cts_on ≡ false) × (tx_seen ≡ false) × (cts_seen ≡ false)
IsNoted (some task) tx_on cts_on tx_seen cts_seen = (tx_on ≡ not tx_seen) × (cts_on ≡ not cts_seen)

-- An interrupt of a UART is enabled just while a task waits for it and it has not come, and
-- `interrupt_tasks` counts the tasks that wait.
pub record IsHome (Sends : Sending) (ev : Events) : Type 0 where
  pub rx2 : ev.uart2_rx_on ≡ not (is_empty ev.at_uart2_rx_incoming)
  pub rt2 : ev.uart2_rt_on ≡ not (is_empty ev.at_uart2_rx_incoming)
  pub tx2 : ev.uart2_tx_on ≡ not (is_empty ev.at_uart2_tx_half_empty)
  pub rx1 : ev.uart1_rx_on ≡ not (is_empty ev.at_uart1_rx_intr)
  pub tx1 : Sends ev.at_uart1_tx_intr ev.uart1_tx_on ev.uart1_cts_on ev.tx_seen ev.cts_seen
  pub count :
      ev.interrupt_tasks
      ≡ bit ev.at_timer_tick
        + bit ev.at_uart1_rx_intr
        + bit ev.at_uart1_tx_intr
        + bit ev.at_uart2_tx_half_empty
        + bit ev.at_uart2_rx_incoming

abbrev pub IsSettled : Events → Type 0
IsSettled ev = IsHome IsSending ev

-- The same interrupts of UART1, or of UART2, are enabled.
abbrev pub Same1 : Events → Events → Type 0
Same1 ev ev' =
    (ev'.uart1_rx_on ≡ ev.uart1_rx_on)
    × (ev'.uart1_tx_on ≡ ev.uart1_tx_on)
    × (ev'.uart1_cts_on ≡ ev.uart1_cts_on)

abbrev pub Same2 : Events → Events → Type 0
Same2 ev ev' =
    (ev'.uart2_rt_on ≡ ev.uart2_rt_on)
    × (ev'.uart2_rx_on ≡ ev.uart2_rx_on)
    × (ev'.uart2_tx_on ≡ ev.uart2_tx_on)

someone : (p : Option ℕ) → not (is_empty p) ≡ true → (task : ℕ) × (p ≡ some task)
someone none h = ground arith
someone (some task) h = (task, refl)

module _ (ev : Events) (v : IsSettled ev) where
  pub timer-IsSettled :
      (timer : Bool) (p : Option ℕ) → ev.at_timer_tick ≡ p → IsSettled (irq_timer ev timer).0
  unfolding irq_timer
  timer-IsSettled false p e = v
  timer-IsSettled true none e = rw (e, wake_up) v
  timer-IsSettled true (some task) e =
      let counted = v.count in
      rw e (record {
        rx2 = v.rx2;
        rt2 = v.rt2;
        tx2 = v.tx2;
        rx1 = v.rx1;
        tx1 = v.tx1;
        count = omega (arith, rw e at counted);
      })

  pub timer-Same :
      (timer : Bool) (p : Option ℕ)
      → ev.at_timer_tick ≡ p
      → Same1 ev (irq_timer ev timer).0 × Same2 ev (irq_timer ev timer).0
  unfolding irq_timer
  timer-Same false p e = ((refl, refl, refl), (refl, refl, refl))
  timer-Same true none e = rw (e, wake_up) ((refl, refl, refl), (refl, refl, refl))
  timer-Same true (some task) e = rw e ((refl, refl, refl), (refl, refl, refl))

  rx2-IsSettled :
      not (is_empty ev.at_uart2_rx_incoming) ≡ true
      → EndsIn
          (λ (ev', _). IsSettled ev' × Same1 ev ev')
          (wake_or_fail ev uart2_rx_incoming
            (λ e. record e { uart2_rx_on = false; uart2_rt_on = false }))
  unfolding wake_or_fail
  rx2-IsSettled h =
      let (task, e) = someone ev.at_uart2_rx_incoming h in
      let counted = v.count in
      rw e (
        (record {
          rx2 = refl;
          rt2 = refl;
          tx2 = v.tx2;
          rx1 = v.rx1;
          tx1 = v.tx1;
          count = omega (arith, rw e at counted);
        }),
        (refl, refl, refl),
      )

  tx2-IsSettled :
      not (is_empty ev.at_uart2_tx_half_empty) ≡ true
      → EndsIn
          (λ (ev', _). IsSettled ev' × Same1 ev ev')
          (wake_or_fail ev uart2_tx_half_empty (λ e. record e { uart2_tx_on = false }))
  unfolding wake_or_fail
  tx2-IsSettled h =
      let (task, e) = someone ev.at_uart2_tx_half_empty h in
      let counted = v.count in
      rw e (
        (record {
          rx2 = v.rx2;
          rt2 = v.rt2;
          tx2 = refl;
          rx1 = v.rx1;
          tx1 = v.tx1;
          count = omega (arith, rw e at counted);
        }),
        (refl, refl, refl),
      )

  rx1-IsSettled :
      not (is_empty ev.at_uart1_rx_intr) ≡ true
      → EndsIn
          (λ (ev', _).
            IsSettled ev'
            × (ev'.uart1_tx_on ≡ ev.uart1_tx_on)
            × (ev'.uart1_cts_on ≡ ev.uart1_cts_on))
          (wake_or_fail ev uart1_rx_intr (λ e. record e { uart1_rx_on = false }))
  unfolding wake_or_fail
  rx1-IsSettled h =
      let (task, e) = someone ev.at_uart1_rx_intr h in
      let counted = v.count in
      rw e (
        (record {
          rx2 = v.rx2;
          rt2 = v.rt2;
          tx2 = v.tx2;
          rx1 = refl;
          tx1 = v.tx1;
          count = omega (arith, rw e at counted);
        }),
        refl,
        refl,
      )

-- A UART's status names an interrupt only if it is enabled.
abbrev pub IsRaised2 : Events → UartStatus → Type 0
IsRaised2 ev status =
    (status.rtis ≡ true → ev.uart2_rt_on ≡ true)
    × (status.ris ≡ true → ev.uart2_rx_on ≡ true)
    × (status.tis ≡ true → ev.uart2_tx_on ≡ true)

abbrev pub IsRaised1 : Events → UartStatus → Type 0
IsRaised1 ev status =
    (status.ris ≡ true → ev.uart1_rx_on ≡ true)
    × (status.tis ≡ true → ev.uart1_tx_on ≡ true)
    × (status.mis ≡ true → ev.uart1_cts_on ≡ true)

pub uart2-IsSettled :
    (ev : Events) (status : UartStatus)
    → IsSettled ev
    → IsRaised2 ev status
    → EndsIn (λ (ev', _). IsSettled ev' × Same1 ev ev') (irq_uart2 ev status)
unfolding irq_uart2
uart2-IsSettled ev status v (rt, rx, tx) = elim (Bool-cases status.here) [
  | inr away ↦ rw away (v, (refl, refl, refl))
  | inl here ↦ elim (Bool-cases status.rtis) [
    | inl rtis ↦ rw (here, rtis) (rx2-IsSettled ev v (sym v.rt2 ∙ rt rtis))
    | inr no_rtis ↦ elim (Bool-cases status.ris) [
      | inl ris ↦ rw (here, no_rtis, ris) (rx2-IsSettled ev v (sym v.rx2 ∙ rx ris))
      | inr no_ris ↦ elim (Bool-cases status.tis) [
        | inl tis ↦ rw (here, no_rtis, no_ris, tis) (tx2-IsSettled ev v (sym v.tx2 ∙ tx tis))
        | inr no_tis ↦ rw (here, no_rtis, no_ris, no_tis) (v, (refl, refl, refl))
      ]
    ]
  ]
]

pub uart1_rx-IsSettled :
    (ev : Events) (status : UartStatus)
    → IsSettled ev
    → (status.ris ≡ true → ev.uart1_rx_on ≡ true)
    → EndsIn
        (λ (ev', _).
          IsSettled ev' × (ev'.uart1_tx_on ≡ ev.uart1_tx_on) × (ev'.uart1_cts_on ≡ ev.uart1_cts_on))
        (irq_uart1_rx ev status)
unfolding irq_uart1_rx
uart1_rx-IsSettled ev status v rx = elim (Bool-cases status.ris) [
  | inl ris ↦ rw ris (rx1-IsSettled ev v (sym v.rx1 ∙ rx ris))
  | inr no_ris ↦ rw no_ris (v, refl, refl)
]
