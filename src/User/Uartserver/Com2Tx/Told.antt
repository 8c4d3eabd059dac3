-- ===== src/User/Uartserver/Com2Tx/Told.antt =====
-- src/user/uartserver.c, `uart_com2_tx_server`: every character put out goes with the reply to one task.
use the_polling_express.Base.{
  ℕ, ◌%◌, ◌≡◌, refl, Bool, true, false, Option, none, some, List, [], ◌∷◌, ◌++◌, get_or, ◌==◌, ◌||◌,
  Bool-cases, inl, inr,
}
use the_polling_express.Base.Outcome.{IfEnds}
use the_polling_express.User.Uartserver.{
  owns, is_free, UartserverRequestType, notifier_tx_good, notifier_rx_good, send_char, get_char,
  release_lock, UartAction, put_char, reply_to,
}
use the_polling_express.User.Uartserver.Com2Tx.{
  TxServer, unpark, tx_round, tx_notified, tx_send_char, tx_send_owned, tx_released,
}
use the_polling_express.User.Uartserver.Com2Tx.Wakeup.{Polite, event, tx_release_lock_lem}

-- Each character put out is followed by the reply to one task.
abbrev pub IsTold : List UartAction → Type 0
IsTold [] = Unit
IsTold (reply_to u d ∷ rest) = IsTold rest
IsTold (put_char c ∷ []) = ⊥
IsTold (put_char c ∷ put_char c' ∷ rest) = ⊥
IsTold (put_char c ∷ reply_to u d ∷ rest) = IsTold rest

IsTold-unpark :
    (parking : Option ℕ) (rest : List UartAction) → IsTold rest → IsTold (unpark parking ++ rest)
unfolding unpark
IsTold-unpark none rest h = h
IsTold-unpark (some n) rest h = h

unpark-IsTold : (parking : Option ℕ) → IsTold (unpark parking)
unfolding unpark
unpark-IsTold none = tt
unpark-IsTold (some n) = tt

notified-IsTold :
    (s : TxServer) (client : ℕ) (owned_by : Option ℕ)
    → s.owned_by ≡ owned_by
    → IsTold (tx_notified s client).1
unfolding tx_notified
notified-IsTold s client none free = rw free tt
notified-IsTold s client (some owner) owned =
    elim (Bool-cases (get_or s.char_buffer owner 0 == 0)) [
      | inl silent ↦ rw (owned, silent) tt
      | inr waits ↦ rw (owned, waits) tt
    ]

owned-IsTold :
    (s : TxServer) (can_write : Bool) (client c : ℕ) → IsTold (tx_send_owned s can_write client c).1
unfolding tx_send_owned
owned-IsTold s true client c = tt
owned-IsTold s false client c = unpark-IsTold s.notifier_parking

send_char-IsTold :
    (s : TxServer) (can_write : Bool) (client sent : ℕ)
    → IsTold (tx_send_char s can_write client sent).1
unfolding tx_send_char
send_char-IsTold s can_write client sent =
    elim (Bool-cases (owns s.owned_by client || is_free s.owned_by)) [
      | inl owned ↦ rw owned (owned-IsTold s can_write client (sent % 256))
      | inr others ↦ rw others tt
    ]

pub round-IsTold :
    (s : TxServer) (can_write : Bool) (client : ℕ) (type : UartserverRequestType) (sent : ℕ)
    → Polite s (event can_write client type sent)
    → IfEnds
        (λ (s', actions). IsTold actions)
        (tx_round s can_write client (record { type = type; data_ = sent }))
unfolding tx_round Polite
round-IsTold s can_write client notifier_tx_good sent p = notified-IsTold s client s.owned_by refl
round-IsTold s can_write client notifier_rx_good sent p = tt
round-IsTold s can_write client get_char sent p = tt
round-IsTold s can_write client send_char sent p = send_char-IsTold s can_write client sent
round-IsTold s can_write client release_lock sent p =
    rw (tx_release_lock_lem s client p)
      (unfold tx_released in IsTold-unpark s.notifier_parking (reply_to client 0 ∷ []) tt)
