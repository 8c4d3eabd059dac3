-- ===== src/User/Uartserver/Com1.antt =====
-- src/user/uartserver.c, `uart_com1_server`: the line to the track. A client owns it from its first
-- character to RELEASE_LOCK. The notifier of the sending side waits for a reply while `can_send` holds.
pub mod Credit
mod Tests
use the_polling_express.Base.{
  ℕ, ◌%◌, Bool, true, false, Option, none, some, List, [], ◌∷◌, ◌++◌, get_or, set, ◌||◌,
  if◌then◌else◌,
}
use the_polling_express.Base.Outcome.{Outcome, ok, out_of_bounds, ◌>>=◌, ◌>>◌, kassert}
use the_polling_express.Common.CircularBuffer.{
  Status, cb_empty, CircularBuffer, cb_init, cb_push_back, cb_pop_front,
}
use the_polling_express.Kernel.Task.{max_num_tasks}
use the_polling_express.User.Uartserver.{
  notifier_tx_good, notifier_rx_good, send_char, get_char, release_lock, UartserverRequest,
  UartAction, put_char, reply_to, owns, is_free, next_owner,
}

pub record Com1Server : Type 0 where
  pub lock_cb : CircularBuffer ℕ
  pub owned_by : Option ℕ
  pub can_send : Bool
  pub want_send : Bool
  pub send_buffer : List ℕ

-- `junk` is what stands in `send_buffer`, which has no initial value.
unfoldable pub com1_start : List ℕ → Com1Server
unfolding cb_init
com1_start junk = record {
  lock_cb = cb_init 0 max_num_tasks;
  owned_by = none;
  can_send = true;
  want_send = false;
  send_buffer = junk;
}

-- An access to the entry -1 of `send_buffer`, or a `Reply` to the task -1, for which the kernel uses
-- the entry -1 of its descriptors, is out of bounds.
unfoldable pub owner_of : Com1Server → Outcome ℕ
owner_of s = elim s.owned_by [ none ↦ out_of_bounds | some owner ↦ ok owner ]

unfoldable pub com1_notified : Com1Server → ℕ → Outcome (Com1Server × List UartAction)
unfolding owner_of
com1_notified s client =
    if s.want_send
    then (owner_of s >>= λ owner. ok (
      record s { want_send = false },
      put_char (get_or s.send_buffer owner 0) ∷ reply_to client 0 ∷ reply_to owner 0 ∷ [],
    ))
    else ok (record s { can_send = true }, [])

unfoldable pub com1_received : Com1Server → ℕ → List UartAction
com1_received s sent = elim s.owned_by [ none ↦ [] | some owner ↦ reply_to owner sent ∷ [] ]

-- `tx` and `rx` are the tasks of the two notifiers.
module _ (tx rx : ℕ) where
  unfoldable pub com1_send_owned : Com1Server → ℕ → ℕ → Com1Server × List UartAction
  com1_send_owned s client c =
      let owned = record s { owned_by = some client } in
      if s.can_send
      then (record owned { can_send = false }, put_char c ∷ reply_to tx 0 ∷ reply_to client 0 ∷ [])
      else (record owned { want_send = true; send_buffer = set s.send_buffer client c }, [])

  unfoldable pub com1_send_char : Com1Server → ℕ → ℕ → Com1Server × List UartAction
  unfolding com1_send_owned owns is_free cb_push_back
  com1_send_char s client sent =
      let c = sent % 256 in
      if is_free s.owned_by || owns s.owned_by client then com1_send_owned s client c else (
        record s {
          lock_cb = (cb_push_back s.lock_cb client false).1;
          send_buffer = set s.send_buffer client c;
        },
        [],
      )

  -- `can_read` is the answer of `uart_can_read`, and `received` that of `uart_get_char`.
  unfoldable pub com1_get_char : Com1Server → Bool → ℕ → Outcome (Com1Server × List UartAction)
  unfolding owner_of
  com1_get_char s can_read received =
      if can_read
      then (owner_of s >>= λ owner. ok (s, reply_to owner received ∷ []))
      else ok (s, reply_to rx 0 ∷ [])

  -- what RELEASE_LOCK does for the next owner
  unfoldable pub com1_pass_on : Com1Server → Com1Server × List UartAction
  com1_pass_on s = elim s.owned_by [
    | none ↦ (s, [])
    | some owner ↦
        if s.can_send
        then (
          record s { can_send = false },
          put_char (get_or s.send_buffer owner 0) ∷ reply_to tx 0 ∷ reply_to owner 0 ∷ [],
        )
        else (record s { want_send = true }, [])
  ]

  unfoldable pub com1_release_lock : Com1Server → ℕ → Outcome (Com1Server × List UartAction)
  unfolding owns next_owner cb_pop_front com1_pass_on
  com1_release_lock s client =
      let (status, item, rest) = cb_pop_front s.lock_cb in
      let (s', actions) =
        com1_pass_on (record s { owned_by = next_owner status item; lock_cb = rest }) in
      do kassert (owns s.owned_by client); ok (s', actions ++ reply_to client 0 ∷ [])

  -- one round of the server's loop
  unfoldable pub com1_round :
      Com1Server → Bool → ℕ → ℕ → UartserverRequest → Outcome (Com1Server × List UartAction)
  unfolding com1_notified com1_received com1_send_char com1_get_char com1_release_lock
  com1_round s can_read received client req = elim req.type [
    | notifier_tx_good ↦ com1_notified s client
    | notifier_rx_good ↦ ok (s, com1_received s req.data_)
    | send_char ↦ ok (com1_send_char s client req.data_)
    | get_char ↦ com1_get_char s can_read received
    | release_lock ↦ com1_release_lock s client
  ]

-- A request with its sender, and what the line has then.
pub record Com1Event : Type 0 where
  pub can_read : Bool
  pub received : ℕ
  pub client : ℕ
  pub request : UartserverRequest

-- the rounds of the server for a sequence of requests, and the actions of each
unfoldable pub com1_run :
    ℕ → ℕ → Com1Server → List Com1Event → Outcome (Com1Server × List (List UartAction))
com1_run tx rx s [] = ok (s, [])
com1_run tx rx s (e ∷ rest) = do
  (s', actions) ← com1_round tx rx s e.can_read e.received e.client e.request
  (s'', more) ← com1_run tx rx s' rest
  ok (s'', actions ∷ more)
