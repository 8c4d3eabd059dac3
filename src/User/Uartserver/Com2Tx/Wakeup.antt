-- ===== src/User/Uartserver/Com2Tx/Wakeup.antt =====
-- src/user/uartserver.c, `uart_com2_tx_server`: no character is left behind while the notifier is parked.
use the_polling_express.Base.{
  ℕ, ◌⊎◌, ◌||◌, [], ◌∷◌, ◌++◌, ◌%◌, ◌<◌, ◌≡◌, ◌≢◌, Bool, true, false, Option, none, some, List,
  length, get_or, set, get_or-set_ne, get_or-set_default, ==_iff, arith, ◌==◌, Bool-cases, inl, inr,
  refl, ◌∙◌,
}
use the_polling_express.Base.Outcome.{ok, EndsIn, EndsIn-and, IfEnds}
use mathlib.Core.List.{Mem, mem-cons_self, append-nil}
use mathlib.Core.Path.{subst}
use the_polling_express.User.Uartserver.{
  UartserverRequestType, notifier_tx_good, notifier_rx_good, send_char, get_char, release_lock,
  UartAction, reply_to, owns, is_free,
}
use the_polling_express.User.Uartserver.Com2Tx.{
  TxServer, TxEvent, unpark, tx_round, tx_notified, tx_send_char, tx_send_owned, tx_released,
  tx_release_lock,
}

abbrev pub event : Bool → ℕ → UartserverRequestType → ℕ → TxEvent
event can_write client type sent = record {
  can_write = can_write;
  client = client;
  request = record { type = type; data_ = sent };
}

-- What a client of the server does: its task id is an index of `char_buffer`, it sends characters
-- other than 0, none while one of its characters is buffered, since it waits for the answer, and only
-- the owner gives the line back.
unfoldable pub Polite : TxServer → TxEvent → Type 0
Polite s e = elim e.request.type [
  | send_char ↦
      (e.client < length s.char_buffer)
      × (get_or s.char_buffer e.client 0 ≡ 0)
      × (e.request.data_ % 256 ≢ 0)
  | release_lock ↦ s.owned_by ≡ some e.client
  | _ ↦ Unit
]

abbrev Rests : Option ℕ → Option ℕ → List ℕ → Type 0
Rests none owned_by buffer = Unit
Rests (some n) none buffer = Unit
Rests (some n) (some owner) buffer = get_or buffer owner 0 ≡ 0

-- While the notifier is parked, no character of the owner is buffered.
abbrev pub IsAwake : TxServer → Type 0
IsAwake s = Rests s.notifier_parking s.owned_by s.char_buffer

Rests-none : (parking : Option ℕ) (buffer : List ℕ) → Rests parking none buffer
Rests-none none buffer = tt
Rests-none (some n) buffer = tt

Rests-quiet :
    (parking : Option ℕ) (owner : ℕ) (buffer : List ℕ)
    → get_or buffer owner 0 ≡ 0
    → Rests parking (some owner) buffer
Rests-quiet none owner buffer quiet = tt
Rests-quiet (some n) owner buffer quiet = quiet

Rests-set :
    (parking : Option ℕ) (owner client c : ℕ) (buffer : List ℕ)
    → (owner == client) ≡ false
    → Rests parking (some owner) buffer
    → Rests parking (some owner) (set buffer client c)
Rests-set none owner client c buffer other h = tt
Rests-set (some n) owner client c buffer other h =
    get_or-set_ne 0 buffer client owner c (λ e. ground arith) ∙ h

notified-IsAwake :
    (s : TxServer) (client : ℕ) (owned_by : Option ℕ)
    → s.owned_by ≡ owned_by
    → IsAwake (tx_notified s client).0
unfolding tx_notified
notified-IsAwake s client none free = rw free tt
notified-IsAwake s client (some owner) owned =
    elim (Bool-cases (get_or s.char_buffer owner 0 == 0)) [
      | inl silent ↦ rw (owned, silent) ((==_iff _ _).0 silent)
      | inr waits ↦ rw (owned, waits) (get_or-set_default 0 s.char_buffer owner)
    ]

sent-IsAwake :
    (s : TxServer) (can_write : Bool) (client c : ℕ)
    → get_or s.char_buffer client 0 ≡ 0
    → IsAwake (tx_send_owned s can_write client c).0
unfolding tx_send_owned
sent-IsAwake s true client c quiet = Rests-quiet s.notifier_parking client s.char_buffer quiet
sent-IsAwake s false client c quiet = tt

send_char-IsAwake :
    (s : TxServer) (can_write : Bool) (client sent : ℕ) (owned_by : Option ℕ)
    → s.owned_by ≡ owned_by
    → get_or s.char_buffer client 0 ≡ 0
    → IsAwake s
    → IsAwake (tx_send_char s can_write client sent).0
unfolding tx_send_char
send_char-IsAwake s can_write client sent none free quiet a =
    rw free (sent-IsAwake s can_write client (sent % 256) quiet)
send_char-IsAwake s can_write client sent (some owner) owned quiet a =
    elim (Bool-cases (owner == client)) [
      | inl same ↦ rw (owned, same) (sent-IsAwake s can_write client (sent % 256) quiet)
      | inr other ↦
          rw (owned, other)
            (Rests-set s.notifier_parking owner client (sent % 256) s.char_buffer other
              (rw owned at a))
    ]

pub tx_release_lock_lem :
    (s : TxServer) (client : ℕ)
    → s.owned_by ≡ some client
    → tx_release_lock s client ≡ ok (tx_released s client)
unfolding tx_release_lock
tx_release_lock_lem s client owned =
    let same : (client == client) ≡ true = ground arith in rw (owned, same) refl

round-IsAwake :
    (s : TxServer) (can_write : Bool) (client : ℕ) (type : UartserverRequestType) (sent : ℕ)
    → Polite s (event can_write client type sent)
    → IsAwake s
    → EndsIn
        (λ (s', _). IsAwake s')
        (tx_round s can_write client (record { type = type; data_ = sent }))
unfolding tx_round Polite
round-IsAwake s can_write client notifier_tx_good sent p a =
    notified-IsAwake s client s.owned_by refl
round-IsAwake s can_write client notifier_rx_good sent p a = a
round-IsAwake s can_write client get_char sent p a = a
round-IsAwake s can_write client send_char sent (_, quiet, _) a =
    send_char-IsAwake s can_write client sent s.owned_by refl quiet a
round-IsAwake s can_write client release_lock sent p a =
    rw (tx_release_lock_lem s client p) (unfold tx_released in tt)

-- the notifier that waits for a reply once the event has come
abbrev pub waiting : TxServer → TxEvent → Option ℕ
waiting s e = elim e.request.type [ notifier_tx_good ↦ some e.client | _ ↦ s.notifier_parking ]

-- A notifier that waits is parked behind the round, or has been replied to in it.
abbrev pub IsHeard : Option ℕ → TxServer → List UartAction → Type 0
IsHeard none s' actions = Unit
IsHeard (some n) s' actions = (s'.notifier_parking ≡ some n) ⊎ Mem (reply_to n 0) actions

unpark-IsHeard :
    (parking : Option ℕ) (s' : TxServer) (rest : List UartAction)
    → IsHeard parking s' (unpark parking ++ rest)
unfolding unpark
unpark-IsHeard none s' rest = tt
unpark-IsHeard (some n) s' rest = inr mem-cons_self

parked-IsHeard :
    (parking : Option ℕ) (s' : TxServer) (actions : List UartAction)
    → s'.notifier_parking ≡ parking
    → IsHeard parking s' actions
parked-IsHeard none s' actions e = tt
parked-IsHeard (some n) s' actions e = inl e

notified-IsHeard :
    (s : TxServer) (client : ℕ) (owned_by : Option ℕ)
    → s.owned_by ≡ owned_by
    → (tx_notified s client).0.notifier_parking ≡ some client
unfolding tx_notified
notified-IsHeard s client none free = rw free refl
notified-IsHeard s client (some owner) owned =
    elim (Bool-cases (get_or s.char_buffer owner 0 == 0)) [
      | inl silent ↦ rw (owned, silent) refl
      | inr waits ↦ rw (owned, waits) refl
    ]

owned-IsHeard :
    (s : TxServer) (can_write : Bool) (client c : ℕ)
    → let (s', actions) = tx_send_owned s can_write client c in
      IsHeard s.notifier_parking s' actions
unfolding tx_send_owned
owned-IsHeard s true client c = parked-IsHeard s.notifier_parking _ _ refl
owned-IsHeard s false client c =
    subst (IsHeard s.notifier_parking _) (append-nil (unpark s.notifier_parking))
      (unpark-IsHeard s.notifier_parking _ [])

send_char-IsHeard :
    (s : TxServer) (can_write : Bool) (client sent : ℕ)
    → let (s', actions) = tx_send_char s can_write client sent in
      IsHeard s.notifier_parking s' actions
unfolding tx_send_char
send_char-IsHeard s can_write client sent =
    elim (Bool-cases (owns s.owned_by client || is_free s.owned_by)) [
      | inl owned ↦ rw owned (owned-IsHeard s can_write client (sent % 256))
      | inr others ↦ rw others (parked-IsHeard s.notifier_parking _ _ refl)
    ]

round-IsHeard :
    (s : TxServer) (can_write : Bool) (client : ℕ) (type : UartserverRequestType) (sent : ℕ)
    → Polite s (event can_write client type sent)
    → IfEnds
        (λ (s', actions). IsHeard (waiting s (event can_write client type sent)) s' actions)
        (tx_round s can_write client (record { type = type; data_ = sent }))
unfolding tx_round Polite
round-IsHeard s can_write client notifier_tx_good sent p =
    inl (notified-IsHeard s client s.owned_by refl)
round-IsHeard s can_write client notifier_rx_good sent p =
    parked-IsHeard s.notifier_parking s [] refl
round-IsHeard s can_write client get_char sent p = parked-IsHeard s.notifier_parking s [] refl
round-IsHeard s can_write client send_char sent p = send_char-IsHeard s can_write client sent
round-IsHeard s can_write client release_lock sent p =
    rw (tx_release_lock_lem s client p)
      (unfold tx_released in unpark-IsHeard s.notifier_parking _ (reply_to client 0 ∷ []))

-- From a state in which no character of the owner is buffered while the notifier is parked, every
-- round for a request of a polite client ends in such a state again. The notifier, which is the sender of
-- NOTIFIER_TX_GOOD and else the one that was parked, is parked then or has been replied to in the round.
pub tx_round-IsAwake :
    (s : TxServer) (e : TxEvent)
    → Polite s e
    → IsAwake s
    → EndsIn
        (λ (s', actions). IsAwake s' × IsHeard (waiting s e) s' actions)
        (tx_round s e.can_write e.client e.request)
tx_round-IsAwake s e p a =
    EndsIn-and (λ (s', _). IsAwake s') (λ (s', actions). IsHeard (waiting s e) s' actions)
      (tx_round s e.can_write e.client e.request)
      (round-IsAwake s e.can_write e.client e.request.type e.request.data_ p a)
      (round-IsHeard s e.can_write e.client e.request.type e.request.data_ p)
