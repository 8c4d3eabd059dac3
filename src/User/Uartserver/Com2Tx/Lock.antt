-- ===== src/User/Uartserver/Com2Tx/Lock.antt =====
-- src/user/uartserver.c, `uart_com2_tx_server`: who owns the line, and who waits for it, beside a queue.
use mathlib.Core.Path.{subst}
use the_polling_express.Base.{
  ℕ, ◌%◌, ◌≡◌, refl, sym, ap, ◌∙◌, Bool, true, false, Option, none, some, List, [], ◌∷◌, ◌==◌,
  get_or, ==_iff, Bool-cases, inl, inr, if◌then◌else◌,
}
use the_polling_express.Base.Outcome.{Outcome, ok, assert_failed, ◌>>=◌, IfEnds}
use the_polling_express.Common.CircularBuffer.Refine.{
  IsValid, contents, queue_push, queue_pop, cb_push_back-IsValid, cb_pop_front-IsValid,
  cb_pop_front_refines, cb_push_back_refines,
}
use the_polling_express.User.Uartserver.{
  next_owner, UartserverRequestType, notifier_tx_good, notifier_rx_good, send_char, get_char,
  release_lock, UartserverRequest, UartAction,
}
use the_polling_express.User.Uartserver.Com2Tx.{
  TxServer, tx_round, tx_notified, tx_send_char, tx_send_owned, tx_released, tx_release_lock,
}

abbrev line : Option ℕ → List ℕ → List ℕ
line none waiting = []
line (some owner) waiting = owner ∷ waiting

abbrev Idle : Option ℕ → List ℕ → Type 0
Idle none waiting = waiting ≡ []
Idle (some owner) waiting = Unit

abbrev waiting_for : TxServer → List ℕ
waiting_for s = contents 0 s.lock_cb

-- the owner, and then the tasks that wait, in the order in which they get the line
abbrev pub holders : TxServer → List ℕ
holders s = line s.owned_by (waiting_for s)

-- The buffer of waiting tasks is valid, and none waits for a line that nobody owns.
abbrev pub IsTxValid : TxServer → Type 0
IsTxValid s = IsValid s.lock_cb × Idle s.owned_by (waiting_for s)

-- The specification: a queue whose first task owns the line, with at most `capacity` behind it. A
-- task that finds it full is not put in.
unfoldable pub lock_send : ℕ → ℕ → List ℕ → List ℕ
lock_send capacity client [] = client ∷ []
lock_send capacity client (owner ∷ waiting) =
    if owner == client
    then owner ∷ waiting
    else owner ∷ (queue_push capacity waiting client false).1

unfoldable pub lock_release : ℕ → List ℕ → Outcome (List ℕ)
lock_release client [] = assert_failed
lock_release client (owner ∷ waiting) = if owner == client then ok waiting else assert_failed

unfoldable pub lock_step : ℕ → UartserverRequestType → ℕ → List ℕ → Outcome (List ℕ)
unfolding lock_send lock_release
lock_step capacity type client l = elim type [
  | send_char ↦ ok (lock_send capacity client l)
  | release_lock ↦ lock_release client l
  | _ ↦ ok l
]

abbrev Refines : TxServer × List UartAction → List ℕ → Type 0
Refines (s, _) l = (holders s ≡ l) × IsTxValid s

notified-Refines :
    (s : TxServer) (client : ℕ) (owned_by : Option ℕ)
    → s.owned_by ≡ owned_by
    → IsTxValid s
    → Refines (tx_notified s client) (holders s)
unfolding tx_notified
notified-Refines s client none free (v, idle) = rw free (refl, (v, rw free at idle))
notified-Refines s client (some owner) owned (v, idle) =
    elim (Bool-cases (get_or s.char_buffer owner 0 == 0)) [
      | inl silent ↦ rw (owned, silent) (refl, (v, tt))
      | inr waits ↦ rw (owned, waits) (refl, (v, tt))
    ]

owned-Refines :
    (s : TxServer) (can_write : Bool) (client c : ℕ)
    → IsValid s.lock_cb
    → Refines (tx_send_owned s can_write client c) (client ∷ waiting_for s)
unfolding tx_send_owned
owned-Refines s true client c v = (refl, (v, tt))
owned-Refines s false client c v = (refl, (v, tt))

send_char-Refines :
    (s : TxServer) (can_write : Bool) (client sent : ℕ) (owned_by : Option ℕ)
    → s.owned_by ≡ owned_by
    → IsTxValid s
    → Refines
        (tx_send_char s can_write client sent)
        (lock_send s.lock_cb.capacity client (holders s))
unfolding tx_send_char lock_send
send_char-Refines s can_write client sent none free (v, idle) =
    let nobody : waiting_for s ≡ [] = rw free at idle in
    let (h, valid) = owned-Refines s can_write client (sent % 256) v in
    rw free (h ∙ ap (◌∷◌ client) nobody, valid)
send_char-Refines s can_write client sent (some owner) owned (v, idle) =
    let (h, valid) = owned-Refines s can_write client (sent % 256) v in
    elim (Bool-cases (owner == client)) [
      | inl same ↦
          rw (owned, same) (h ∙ ap (λ o. o ∷ waiting_for s) (sym ((==_iff _ _).0 same)), valid)
      | inr other ↦
          rw (owned, other)
            (
              ap (λ (_, q). owner ∷ q) (cb_push_back_refines 0 s.lock_cb client false v),
              (cb_push_back-IsValid s.lock_cb client false v, tt),
            )
    ]

popped-line :
    (q : List ℕ)
    → (let (status, item, rest) = queue_pop q in line (next_owner status item) rest) ≡ q
unfolding queue_pop next_owner
popped-line [] = refl
popped-line (x ∷ q) = refl

popped-Idle :
    (q : List ℕ) → let (status, item, rest) = queue_pop q in Idle (next_owner status item) rest
unfolding queue_pop next_owner
popped-Idle [] = refl
popped-Idle (x ∷ q) = tt

released-Refines :
    (s : TxServer) (client : ℕ) → IsValid s.lock_cb → Refines (tx_released s client) (waiting_for s)
unfolding tx_released
released-Refines s client v =
    let e = cb_pop_front_refines 0 s.lock_cb v in
    (
      ap (λ (status, item, rest). line (next_owner status item) rest) e
          ∙ popped-line (waiting_for s),
      (
        cb_pop_front-IsValid s.lock_cb v,
        subst (λ (status, item, rest). Idle (next_owner status item) rest) (sym e)
            (popped-Idle (waiting_for s)),
      ),
    )

-- what holds of a round that refines a step of the specification
abbrev RoundRefines : Outcome (TxServer × List UartAction) → Outcome (List ℕ) → Type 0
RoundRefines r step =
    ((r >>= λ (s', _). ok (holders s')) ≡ step) × IfEnds (λ (s', _). IsTxValid s') r

release-Refines :
    (s : TxServer) (client : ℕ) (owned_by : Option ℕ)
    → s.owned_by ≡ owned_by
    → IsTxValid s
    → RoundRefines (tx_release_lock s client) (lock_release client (holders s))
unfolding tx_release_lock lock_release
release-Refines s client none free (v, idle) = rw free (refl, tt)
release-Refines s client (some owner) owned (v, idle) =
    let (h, valid) = released-Refines s client v in
    elim (Bool-cases (owner == client)) [
      | inl same ↦ rw (owned, same) (ap (λ l. ok l) h, valid)
      | inr other ↦ rw (owned, other) (refl, tt)
    ]

step-Refines :
    (r : TxServer × List UartAction) (l : List ℕ) → Refines r l → RoundRefines (ok r) (ok l)
step-Refines (s', actions) l (h, valid) = (ap (λ q. ok q) h, valid)

round-Refines :
    (s : TxServer) (can_write : Bool) (client : ℕ) (type : UartserverRequestType) (sent : ℕ)
    → IsTxValid s
    → RoundRefines
        (tx_round s can_write client (record { type = type; data_ = sent }))
        (lock_step s.lock_cb.capacity type client (holders s))
unfolding tx_round lock_step
round-Refines s can_write client notifier_tx_good sent v =
    step-Refines (tx_notified s client) (holders s) (notified-Refines s client s.owned_by refl v)
round-Refines s can_write client notifier_rx_good sent v = (refl, v)
round-Refines s can_write client get_char sent v = (refl, v)
round-Refines s can_write client send_char sent v =
    step-Refines (tx_send_char s can_write client sent)
      (lock_send s.lock_cb.capacity client (holders s))
      (send_char-Refines s can_write client sent s.owned_by refl v)
round-Refines s can_write client release_lock sent v = release-Refines s client s.owned_by refl v

-- On a valid state every round, for any request of any task, does to the owner and the tasks that wait
-- what a queue with the room of the buffer does: the first task owns the line until it gives it back,
-- the others follow in the order of their requests, a task that finds no room is not put in, and a
-- RELEASE_LOCK of another task than the owner fails its assertion. The state stays valid.
pub tx_round_refines :
    (s : TxServer) (can_write : Bool) (client : ℕ) (req : UartserverRequest)
    → IsTxValid s
    → ((tx_round s can_write client req >>= λ (s', _). ok (holders s'))
        ≡ lock_step s.lock_cb.capacity req.type client (holders s))
      × IfEnds (λ (s', _). IsTxValid s') (tx_round s can_write client req)
tx_round_refines s can_write client req v = round-Refines s can_write client req.type req.data_ v
