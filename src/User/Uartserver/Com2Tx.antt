-- ===== src/User/Uartserver/Com2Tx.antt =====
-- src/user/uartserver.c, `uart_com2_tx_server`: the characters that go to the terminal. A client owns the
-- line from its first character to RELEASE_LOCK, and the others wait in `lock_cb`.
pub mod Lock
pub mod Wakeup
pub mod Told
pub mod Output
mod Tests
use the_polling_express.Base.{
  ℕ, ◌%◌, Bool, true, false, Option, none, some, List, [], ◌∷◌, ◌++◌, get_or, set, replicate, ◌==◌,
  ◌||◌, if◌then◌else◌,
}
use the_polling_express.Base.Outcome.{Outcome, ok, ◌>>=◌, ◌>>◌, kassert}
use the_polling_express.Common.CircularBuffer.{
  Status, cb_empty, CircularBuffer, cb_init, cb_push_back, cb_pop_front,
}
use the_polling_express.User.Uartserver.{
  notifier_tx_good, send_char, release_lock, UartserverRequest, UartAction, put_char, reply_to,
  owns, is_free, next_owner,
}

pub record TxServer : Type 0 where
  pub notifier_parking : Option ℕ
  pub owned_by : Option ℕ
  pub lock_cb : CircularBuffer ℕ
  pub char_buffer : List ℕ

abbrev pub max_capacity : ℕ
max_capacity = 100

-- `memset` clears the first entries of `char_buffer`; `junk` is what stands in the other 25.
unfoldable pub tx_start : List ℕ → TxServer
unfolding cb_init
tx_start junk = record {
  notifier_parking = none;
  owned_by = none;
  lock_cb = cb_init 0 max_capacity;
  char_buffer = replicate max_capacity 0 ++ junk;
}

-- the reply to a notifier that waits for one
unfoldable pub unpark : Option ℕ → List UartAction
unpark none = []
unpark (some notifier) = reply_to notifier 0 ∷ []

unfoldable pub tx_notified : TxServer → ℕ → TxServer × List UartAction
tx_notified s client =
    let parked = record s { notifier_parking = some client } in
    elim s.owned_by [
      | none ↦ (parked, [])
      | some owner ↦
          let c = get_or s.char_buffer owner 0 in
          if c == 0 then (parked, []) else (
            record parked { char_buffer = set s.char_buffer owner 0 },
            put_char c ∷ reply_to owner 0 ∷ [],
          )
    ]

-- `can_write` is the answer of `uart_can_write`, and `c` the character.
unfoldable pub tx_send_owned : TxServer → Bool → ℕ → ℕ → TxServer × List UartAction
unfolding unpark
tx_send_owned s can_write client c =
    let owned = record s { owned_by = some client } in
    if can_write then (owned, put_char c ∷ reply_to client 0 ∷ []) else (
      record owned { char_buffer = set s.char_buffer client c; notifier_parking = none },
      unpark s.notifier_parking,
    )

unfoldable pub tx_send_char : TxServer → Bool → ℕ → ℕ → TxServer × List UartAction
unfolding tx_send_owned is_free owns cb_push_back
tx_send_char s can_write client sent =
    let c = sent % 256 in
    if owns s.owned_by client || is_free s.owned_by then tx_send_owned s can_write client c else (
      record s {
        lock_cb = (cb_push_back s.lock_cb client false).1;
        char_buffer = set s.char_buffer client c;
      },
      [],
    )

-- the statements of RELEASE_LOCK behind the assertion
unfoldable pub tx_released : TxServer → ℕ → TxServer × List UartAction
unfolding next_owner unpark cb_pop_front
tx_released s client =
    let (status, item, rest) = cb_pop_front s.lock_cb in
    (
      record s { owned_by = next_owner status item; lock_cb = rest; notifier_parking = none },
      unpark s.notifier_parking ++ reply_to client 0 ∷ [],
    )

unfoldable pub tx_release_lock : TxServer → ℕ → Outcome (TxServer × List UartAction)
unfolding owns tx_released
tx_release_lock s client = do kassert (owns s.owned_by client); ok (tx_released s client)

-- one round of the server's loop
unfoldable pub tx_round :
    TxServer → Bool → ℕ → UartserverRequest → Outcome (TxServer × List UartAction)
unfolding tx_notified tx_send_char tx_release_lock
tx_round s can_write client req = elim req.type [
  | notifier_tx_good ↦ ok (tx_notified s client)
  | send_char ↦ ok (tx_send_char s can_write client req.data_)
  | release_lock ↦ tx_release_lock s client
  | _ ↦ ok (s, [])
]

-- A request with its sender, and whether the line has room then.
pub record TxEvent : Type 0 where
  pub can_write : Bool
  pub client : ℕ
  pub request : UartserverRequest

-- the rounds of the server for a sequence of requests, and the actions of each
unfoldable pub tx_run : TxServer → List TxEvent → Outcome (TxServer × List (List UartAction))
tx_run s [] = ok (s, [])
tx_run s (e ∷ rest) = do
  (s', actions) ← tx_round s e.can_write e.client e.request
  (s'', more) ← tx_run s' rest
  ok (s'', actions ∷ more)
