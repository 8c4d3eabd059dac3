-- ===== src/Kernel/Events/Transmit.antt =====
-- src/main.c: the bits of `uart1_tx_flag`, and the task that waits for both.
use the_polling_express.Base.{
  ℕ, ◌≡◌, refl, ◌∙◌, ap, Bool, true, false, not, ◌&&◌, Option, none, some, [], arith, if◌then◌else◌,
}
use the_polling_express.Base.Outcome.{ok, EndsIn}
use the_polling_express.Kernel.Events.{uart1_tx_intr, Events}
use the_polling_express.Kernel.Events.Irq.{UartStatus, wake_or_fail, note_tx, irq_uart1_tx}
use the_polling_express.Kernel.Events.Home.{IsSending, IsNoted, IsHome, IsSettled}

tx1-cases :
    (ev : Events) (p : Option ℕ) (tx_seen cts_seen : Bool)
    → IsHome IsNoted ev
    → ev.at_uart1_tx_intr ≡ p
    → ev.tx_seen ≡ tx_seen
    → ev.cts_seen ≡ cts_seen
    → EndsIn
        (λ (ev', _). IsSettled ev')
        (if ev.tx_seen && ev.cts_seen
          then wake_or_fail ev uart1_tx_intr (λ e. record e { tx_seen = false; cts_seen = false })
          else ok (ev, []))
unfolding wake_or_fail
tx1-cases ev none tx_seen cts_seen v p t c =
    let noted : IsNoted none ev.uart1_tx_on ev.uart1_cts_on ev.tx_seen ev.cts_seen =
      rw p at v.tx1 in
    let (tx_off, cts_off, unsent, uncleared) = noted in
    rw unsent (record {
      rx2 = v.rx2;
      rt2 = v.rt2;
      tx2 = v.tx2;
      rx1 = v.rx1;
      tx1 = rw p (tx_off, cts_off, refl, uncleared);
      count = v.count;
    })
tx1-cases ev (some task) true true v p t c =
    let noted : IsNoted (some task) ev.uart1_tx_on ev.uart1_cts_on ev.tx_seen ev.cts_seen =
      rw p at v.tx1 in
    let counted = v.count in
    rw (t, c, p)
      (record {
        rx2 = v.rx2;
        rt2 = v.rt2;
        tx2 = v.tx2;
        rx1 = v.rx1;
        tx1 = (noted.0 ∙ ap not t, noted.1 ∙ ap not c, refl, refl);
        count = omega (arith, rw p at counted);
      })
tx1-cases ev (some task) true false v p t c =
    let noted : IsNoted (some task) ev.uart1_tx_on ev.uart1_cts_on ev.tx_seen ev.cts_seen =
      rw p at v.tx1 in
    rw (t, c)
      (record {
        rx2 = v.rx2;
        rt2 = v.rt2;
        tx2 = v.tx2;
        rx1 = v.rx1;
        tx1 = rw p (noted.0 ∙ ap not t, noted.1 ∙ ap not c, refl);
        count = v.count;
      })
tx1-cases ev (some task) false cts_seen v p t c =
    let noted : IsNoted (some task) ev.uart1_tx_on ev.uart1_cts_on ev.tx_seen ev.cts_seen =
      rw p at v.tx1 in
    rw t (record {
      rx2 = v.rx2;
      rt2 = v.rt2;
      tx2 = v.tx2;
      rx1 = v.rx1;
      tx1 = rw p (noted.0 ∙ ap not t, noted.1, refl);
      count = v.count;
    })

IsNoted-tx :
    (p : Option ℕ) (tx_on cts_on tx_seen cts_seen : Bool)
    → tx_on ≡ true
    → IsNoted p tx_on cts_on tx_seen cts_seen
    → IsNoted p false cts_on true cts_seen
IsNoted-tx none tx_on cts_on tx_seen cts_seen on (off, _, _, _) = absurd (ground (arith, on, off))
IsNoted-tx (some task) tx_on cts_on tx_seen cts_seen on (_, cts) = (refl, cts)

IsNoted-cts :
    (p : Option ℕ) (tx_on cts_on tx_seen cts_seen : Bool)
    → cts_on ≡ true
    → IsNoted p tx_on cts_on tx_seen cts_seen
    → IsNoted p tx_on false tx_seen true
IsNoted-cts none tx_on cts_on tx_seen cts_seen on (_, off, _, _) = absurd (ground (arith, on, off))
IsNoted-cts (some task) tx_on cts_on tx_seen cts_seen on (tx, _) = (tx, refl)

IsNoted-settled :
    (p : Option ℕ) (tx_on cts_on tx_seen cts_seen : Bool)
    → IsSending p tx_on cts_on tx_seen cts_seen
    → IsNoted p tx_on cts_on tx_seen cts_seen
IsNoted-settled none tx_on cts_on tx_seen cts_seen h = h
IsNoted-settled (some task) tx_on cts_on tx_seen cts_seen (tx, cts, _) = (tx, cts)

sent-IsNoted :
    (ev : Events) (tis : Bool)
    → IsHome IsNoted ev
    → (tis ≡ true → ev.uart1_tx_on ≡ true)
    → IsHome IsNoted (if tis then record ev { tx_seen = true; uart1_tx_on = false } else ev)
sent-IsNoted ev false v raised = v
sent-IsNoted ev true v raised = record {
  rx2 = v.rx2;
  rt2 = v.rt2;
  tx2 = v.tx2;
  rx1 = v.rx1;
  tx1 =
      IsNoted-tx ev.at_uart1_tx_intr ev.uart1_tx_on ev.uart1_cts_on ev.tx_seen ev.cts_seen
        (raised refl) v.tx1;
  count = v.count;
}

cleared-IsNoted :
    (ev : Events) (clear : Bool)
    → IsHome IsNoted ev
    → (clear ≡ true → ev.uart1_cts_on ≡ true)
    → IsHome IsNoted (if clear then record ev { cts_seen = true; uart1_cts_on = false } else ev)
cleared-IsNoted ev false v raised = v
cleared-IsNoted ev true v raised = record {
  rx2 = v.rx2;
  rt2 = v.rt2;
  tx2 = v.tx2;
  rx1 = v.rx1;
  tx1 =
      IsNoted-cts ev.at_uart1_tx_intr ev.uart1_tx_on ev.uart1_cts_on ev.tx_seen ev.cts_seen
        (raised refl) v.tx1;
  count = v.count;
}

sent_keeps :
    (ev : Events) (tis : Bool)
    → (if tis then record ev { tx_seen = true; uart1_tx_on = false } else ev).uart1_cts_on
      ≡ ev.uart1_cts_on
sent_keeps ev false = refl
sent_keeps ev true = refl

and_left : (a b : Bool) → (a && b) ≡ true → a ≡ true
and_left true b h = refl
and_left false b h = h

pub uart1_tx-IsSettled :
    (ev : Events) (status : UartStatus)
    → IsSettled ev
    → (status.tis ≡ true → ev.uart1_tx_on ≡ true)
    → (status.mis ≡ true → ev.uart1_cts_on ≡ true)
    → EndsIn (λ (ev', _). IsSettled ev') (irq_uart1_tx ev status)
unfolding irq_uart1_tx note_tx
uart1_tx-IsSettled ev status v tx cts =
    let noted : IsHome IsNoted ev = record {
      rx2 = v.rx2;
      rt2 = v.rt2;
      tx2 = v.tx2;
      rx1 = v.rx1;
      tx1 =
          IsNoted-settled ev.at_uart1_tx_intr ev.uart1_tx_on ev.uart1_cts_on ev.tx_seen ev.cts_seen
            v.tx1;
      count = v.count;
    } in
    let sent = if status.tis then record ev { tx_seen = true; uart1_tx_on = false } else ev in
    let same : sent.uart1_cts_on ≡ ev.uart1_cts_on = sent_keeps ev status.tis in
    let after = note_tx ev status in
    tx1-cases after after.at_uart1_tx_intr after.tx_seen after.cts_seen
      (cleared-IsNoted sent (status.mis && (status.dcts && status.cts))
        (sent-IsNoted ev status.tis noted tx)
        (λ h. same ∙ cts (and_left status.mis (status.dcts && status.cts) h)))
      refl refl refl
