-- ===== src/User/Uartserver/Com1/Tests.antt =====
-- src/user/uartserver.c, `uart_com1_server`, and a round of `uart_com2_rx_server`, at concrete inputs.
use the_polling_express.Base.{ℕ, ◌+◌, ◌≤◌, ◌≡◌, refl, true, false, some, List, [], ◌∷◌, replicate}
use the_polling_express.Base.Outcome.{ok, out_of_bounds, ◌>>=◌, IfEnds}
use the_polling_express.User.Uartserver.{
  UartserverRequestType, notifier_tx_good, send_char, get_char, release_lock, UartserverRequest,
  put_char, reply_to,
}
use the_polling_express.User.Uartserver.Com1.{
  Com1Server, Com1Event, com1_start, com1_round, com1_run,
}
use the_polling_express.User.Uartserver.Com1.Credit.{puts_all, ready, notices_all, com1_run-Covered}
use the_polling_express.User.Uartserver.Com2Rx.{rx_round}

abbrev fresh : Com1Server
fresh = com1_start (replicate 125 42)

abbrev ask : UartserverRequestType → ℕ → UartserverRequest
ask type sent = record { type = type; data_ = sent }

abbrev event : ℕ → UartserverRequestType → ℕ → Com1Event
event client type sent = record {
  can_read = true;
  received = 200;
  client = client;
  request = ask type sent;
}

-- Task 7 sends two characters, task 8 waits for the line with another; 3 and 4 are the notifiers.
abbrev talk : List Com1Event
talk =
    event 7 send_char 65
    ∷ event 7 send_char 66
    ∷ event 8 send_char 67
    ∷ event 3 notifier_tx_good 0
    ∷ event 7 release_lock 0
    ∷ event 3 notifier_tx_good 0
    ∷ []

talk_actions :
    (com1_run 3 4 fresh talk >>= λ (s', actions). ok actions)
    ≡ ok (
        (put_char 65 ∷ reply_to 3 0 ∷ reply_to 7 0 ∷ [])
        ∷ []
        ∷ []
        ∷ (put_char 66 ∷ reply_to 3 0 ∷ reply_to 7 0 ∷ [])
        ∷ (reply_to 7 0 ∷ [])
        ∷ (put_char 67 ∷ reply_to 3 0 ∷ reply_to 8 0 ∷ [])
        ∷ [])
unfolding com1_start com1_run com1_round
talk_actions = refl

-- the character that came goes to the owner, and without one the kernel is asked for the task -1
get_char_of_other :
    com1_round 3 4 (record fresh { owned_by = some 7 }) true 200 8 (ask get_char 0)
    ≡ ok (record fresh { owned_by = some 7 }, reply_to 7 200 ∷ [])
unfolding com1_round
get_char_of_other = refl

get_char_of_none : com1_round 3 4 fresh true 200 8 (ask get_char 0) ≡ out_of_bounds
unfolding com1_start com1_round
get_char_of_none = refl

com1_run-Covered_example :
    IfEnds
      (λ (s', actions). puts_all actions + ready s' ≤ ready fresh + notices_all talk)
      (com1_run 3 4 fresh talk)
com1_run-Covered_example = com1_run-Covered 3 4 fresh talk

-- the second task that waits takes the place of the first
rx_second : rx_round 5 (some 7) false 0 8 (ask get_char 0) ≡ ok (some 8, reply_to 5 0 ∷ [])
unfolding rx_round
rx_second = refl
