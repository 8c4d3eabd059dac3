-- ===== src/User/Uartserver/Com2Tx/Tests.antt =====
-- src/user/uartserver.c, `uart_com2_tx_server`, at concrete inputs.
use the_polling_express.Base.{some, ◌≡◌, refl, true, false, List, [], ◌∷◌, arith, replicate}
use the_polling_express.Base.Outcome.{ok, ◌>>=◌, EndsIn, IfEnds}
use the_polling_express.Common.CircularBuffer.Refine.{cb_init-IsValid}
use the_polling_express.User.Uartserver.{
  notifier_tx_good, send_char, release_lock, put_char, reply_to,
}
use the_polling_express.User.Uartserver.Com2Tx.{
  TxServer, TxEvent, max_capacity, tx_start, tx_round, tx_run,
}
use the_polling_express.User.Uartserver.Com2Tx.Wakeup.{
  Polite, event, IsAwake, IsHeard, tx_round-IsAwake,
}
use the_polling_express.User.Uartserver.Com2Tx.Lock.{
  holders, IsTxValid, lock_step, tx_round_refines,
}
use the_polling_express.User.Uartserver.Com2Tx.Output.{RunBalance, IsPoliteRun, tx_run-Balance}

abbrev fresh : TxServer
fresh = tx_start (replicate 25 0)

-- Task 7 takes the line, task 8 waits, a character of task 7 waits for the notifier, which is task 3,
-- and then task 7 gives the line back.
abbrev talk : List TxEvent
talk =
    event true 7 send_char 65
    ∷ event true 8 send_char 66
    ∷ event false 7 send_char 67
    ∷ event true 3 notifier_tx_good 0
    ∷ event true 7 release_lock 0
    ∷ event true 3 notifier_tx_good 0
    ∷ []

talk_actions :
    (tx_run fresh talk >>= λ (s', actions). ok actions)
    ≡ ok (
        (put_char 65 ∷ reply_to 7 0 ∷ [])
        ∷ []
        ∷ []
        ∷ (put_char 67 ∷ reply_to 7 0 ∷ [])
        ∷ (reply_to 3 0 ∷ reply_to 7 0 ∷ [])
        ∷ (put_char 66 ∷ reply_to 8 0 ∷ [])
        ∷ [])
unfolding tx_start tx_run tx_round
talk_actions = refl

-- an entry of `char_buffer` that `memset` has not cleared
stray :
    (tx_run
        (tx_start (replicate 25 42))
        (event true 110 send_char 65 ∷ event true 3 notifier_tx_good 0 ∷ [])
      >>= λ (s', actions). ok actions)
    ≡ ok ((put_char 65 ∷ reply_to 110 0 ∷ []) ∷ (put_char 42 ∷ reply_to 110 0 ∷ []) ∷ [])
unfolding tx_start tx_run tx_round
stray = refl

talk-IsPoliteRun : IsPoliteRun fresh talk
unfolding tx_start tx_round Polite
talk-IsPoliteRun = (
  (omega arith, refl, omega arith),
  ((omega arith, refl, omega arith), ((omega arith, refl, omega arith), (tt, (refl, (tt, tt))))),
)

tx_run-Balance_example : EndsIn (RunBalance 8 fresh talk) (tx_run fresh talk)
tx_run-Balance_example = tx_run-Balance 8 fresh talk talk-IsPoliteRun

-- Task 7 owns the line, and the notifier, task 3, is parked.
abbrev parked : TxServer
parked = record fresh { notifier_parking = some 3; owned_by = some 7 }

-- The line has no room.
parked-Polite : Polite parked (event false 7 send_char 65)
unfolding tx_start Polite
parked-Polite = (omega arith, refl, omega arith)

parked-IsAwake : IsAwake parked
unfolding tx_start
parked-IsAwake = refl

tx_round-IsAwake_example :
    EndsIn
      (λ (s', actions). IsAwake s' × IsHeard (some 3) s' actions)
      (tx_round parked false 7 (record { type = send_char; data_ = 65 }))
tx_round-IsAwake_example =
    tx_round-IsAwake parked (event false 7 send_char 65) parked-Polite parked-IsAwake

fresh-IsTxValid : IsTxValid fresh
unfolding tx_start
fresh-IsTxValid = cb_init-IsValid 0 max_capacity (omega arith)

tx_round_refines_example :
    ((tx_round fresh false 7 (record { type = send_char; data_ = 65 }) >>= λ (s', _).
    ok (holders s'))
      ≡ lock_step fresh.lock_cb.capacity send_char 7 (holders fresh))
    × IfEnds
        (λ (s', _). IsTxValid s')
        (tx_round fresh false 7 (record { type = send_char; data_ = 65 }))
tx_round_refines_example =
    tx_round_refines fresh false 7 (record { type = send_char; data_ = 65 }) fresh-IsTxValid
