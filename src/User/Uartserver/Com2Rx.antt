-- ===== src/User/Uartserver/Com2Rx.antt =====
-- src/user/uartserver.c, `uart_com2_rx_server`: the characters that come from the terminal. The state is
-- the task that waits for one.
use the_polling_express.Base.{ℕ, Bool, Option, none, some, List, [], ◌∷◌, if◌then◌else◌}
use the_polling_express.Base.Outcome.{Outcome, ok, assert_failed}
use the_polling_express.User.Uartserver.{
  notifier_rx_good, get_char, UartserverRequest, UartAction, reply_to,
}

unfoldable pub rx_notified : Option ℕ → ℕ → Option ℕ × List UartAction
rx_notified none received = (none, [])
rx_notified (some client) received = (none, reply_to client received ∷ [])

-- One round of the server's loop: `notifier` is the task of the notifier, `can_read` the answer of
-- `uart_can_read`, and `received` that of `uart_get_char`.
unfoldable pub rx_round :
    ℕ → Option ℕ → Bool → ℕ → ℕ → UartserverRequest → Outcome (Option ℕ × List UartAction)
unfolding rx_notified
rx_round notifier waiting can_read received client req = elim req.type [
  | notifier_rx_good ↦ ok (rx_notified waiting received)
  | get_char ↦
      if can_read
      then ok (waiting, reply_to client received ∷ [])
      else ok (some client, reply_to notifier 0 ∷ [])
  | _ ↦ assert_failed
]
