-- ===== src/User/Uartserver/Com2Tx/Output.antt =====
-- src/user/uartserver.c, `uart_com2_tx_server`: the characters that a client sends, and those of its that
-- the server puts out.
use mathlib.Core.List.{append-nil, append_assoc}
use the_polling_express.Base.{
  ℕ, All, ◌%◌, ◌<◌, ◌≡◌, ◌≢◌, refl, sym, ap, ◌∙◌, Bool, true, false, Option, none, some, List, [],
  ◌∷◌, ◌++◌, length, get_or, set, get_or-set_ne, get_or-set_self, get_or-set_default, ==_iff, arith,
  ◌==◌, ◌||◌, Bool-cases, inl, inr, if◌then◌else◌,
}
use the_polling_express.Base.Outcome.{
  Outcome, ok, assert_failed, out_of_fuel, out_of_bounds, ◌>>=◌, EndsIn, EndsIn-bind, EndsIn-and,
  IfEnds-both, IfEnds,
}
use the_polling_express.User.Uartserver.{
  owns, is_free, UartserverRequestType, notifier_tx_good, notifier_rx_good, send_char, get_char,
  release_lock, UartAction, put_char, reply_to,
}
use the_polling_express.User.Uartserver.Com2Tx.{
  TxServer, TxEvent, unpark, tx_round, tx_run, tx_notified, tx_send_char, tx_send_owned,
  tx_released,
}
use the_polling_express.User.Uartserver.Com2Tx.Wakeup.{Polite, event, tx_release_lock_lem}
use the_polling_express.User.Uartserver.Com2Tx.Told.{IsTold, round-IsTold}

-- the task of the reply that comes next is `t`
abbrev answers : ℕ → List UartAction → Bool
answers t [] = false
answers t (put_char c ∷ rest) = false
answers t (reply_to u d ∷ rest) = u == t

-- a character of the buffer, where 0 stands for none
unfoldable pub held : ℕ → List ℕ
held c = if c == 0 then [] else c ∷ []

held-char : (c : ℕ) → (c == 0) ≡ false → held c ≡ c ∷ []
unfolding held
held-char c visible = rw visible refl

-- Each event of a run is polite in the state that it comes to.
abbrev pub IsPoliteRun : TxServer → List TxEvent → Type 0
IsPoliteRun s [] = Unit
IsPoliteRun s (e ∷ rest) =
    Polite s e × IfEnds (λ (s', _). IsPoliteRun s' rest) (tx_round s e.can_write e.client e.request)

module _ (t : ℕ) where
  -- the characters put out of which `t` is told
  abbrev pub shown : List UartAction → List ℕ
  shown [] = []
  shown (reply_to u d ∷ rest) = shown rest
  shown (put_char c ∷ rest) = let later = shown rest in if answers t rest then c ∷ later else later

  abbrev pub shown_all : List (List UartAction) → List ℕ
  shown_all [] = []
  shown_all (actions ∷ rest) = shown actions ++ shown_all rest

  -- the character of `t` that the server holds back
  abbrev pub pending : TxServer → List ℕ
  pending s = held (get_or s.char_buffer t 0)

  -- the character that an event brings from `t`
  abbrev pub brought : TxEvent → List ℕ
  brought e = elim e.request.type [
    | send_char ↦ if e.client == t then e.request.data_ % 256 ∷ [] else []
    | _ ↦ []
  ]

  abbrev pub brought_all : List TxEvent → List ℕ
  brought_all [] = []
  brought_all (e ∷ rest) = brought e ++ brought_all rest

  -- What is put out, and then held back, is what was held back before and then brought.
  abbrev Balance : TxServer → List ℕ → TxServer × List UartAction → Type 0
  Balance s news (s', actions) = shown actions ++ pending s' ≡ pending s ++ news

  -- the same for a run, each of whose characters is followed by a reply
  abbrev pub RunBalance : TxServer → List TxEvent → TxServer × List (List UartAction) → Type 0
  RunBalance s events (last, all) =
      (shown_all all ++ pending last ≡ pending s ++ brought_all events) × All IsTold all

  shown-unpark :
      (parking : Option ℕ) (rest : List UartAction) → shown (unpark parking ++ rest) ≡ shown rest
  unfolding unpark
  shown-unpark none rest = refl
  shown-unpark (some n) rest = refl

  shown_none : (parking : Option ℕ) → shown (unpark parking) ≡ []
  unfolding unpark
  shown_none none = refl
  shown_none (some n) = refl

  notified-Balance :
      (s : TxServer) (client : ℕ) (owned_by : Option ℕ)
      → s.owned_by ≡ owned_by
      → Balance s [] (tx_notified s client)
  unfolding tx_notified
  notified-Balance s client none free = rw free (sym (append-nil (pending s)))
  notified-Balance s client (some owner) owned =
      elim (Bool-cases (get_or s.char_buffer owner 0 == 0)) [
        | inl silent ↦ rw (owned, silent) (sym (append-nil (pending s)))
        | inr waits ↦ elim (Bool-cases (owner == t)) [
          | inl same ↦
              rw (owned, waits, same)
                let h : owner ≡ t = (==_iff _ _).0 same in
                  rw
                    (
                      ← h,
                      get_or-set_default 0 s.char_buffer owner,
                      held-char (get_or s.char_buffer owner 0) waits,
                    )
                    (unfold held in refl)
          | inr other ↦
              rw (owned, waits, other)
                (ap held (get_or-set_ne 0 s.char_buffer owner t 0 (λ e. ground arith))
                  ∙ sym (append-nil (pending s)))
        ]
      ]

  stored-pending :
      (buffer : List ℕ) (client c : ℕ)
      → client < length buffer
      → get_or buffer client 0 ≡ 0
      → c ≢ 0
      → held (get_or (set buffer client c) t 0)
        ≡ held (get_or buffer t 0) ++ (if client == t then c ∷ [] else [])
  stored-pending buffer client c inside quiet visible = elim (Bool-cases (client == t)) [
    | inl same ↦
        let h : client ≡ t = (==_iff _ _).0 same in
        rw (same, ← h, get_or-set_self 0 buffer client c inside, quiet, held-char c (ground arith))
          (unfold held in refl)
    | inr other ↦ rw other (
        ap held (get_or-set_ne 0 buffer client t c (λ e. ground arith))
        ∙ sym (append-nil (held (get_or buffer t 0))))
  ]

  owned-Balance :
      (s : TxServer) (can_write : Bool) (client c : ℕ)
      → client < length s.char_buffer
      → get_or s.char_buffer client 0 ≡ 0
      → c ≢ 0
      → Balance s (if client == t then c ∷ [] else []) (tx_send_owned s can_write client c)
  unfolding tx_send_owned
  owned-Balance s true client c inside quiet visible = elim (Bool-cases (client == t)) [
    | inl same ↦
        let h : client ≡ t = (==_iff _ _).0 same in rw (same, ← h, quiet) (unfold held in refl)
    | inr other ↦ rw other (sym (append-nil (pending s)))
  ]
  owned-Balance s false client c inside quiet visible =
      rw (shown_none s.notifier_parking)
        (stored-pending s.char_buffer client c inside quiet visible)

  send_char-Balance :
      (s : TxServer) (can_write : Bool) (client sent : ℕ)
      → client < length s.char_buffer
      → get_or s.char_buffer client 0 ≡ 0
      → sent % 256 ≢ 0
      → Balance s
          (if client == t then sent % 256 ∷ [] else [])
          (tx_send_char s can_write client sent)
  unfolding tx_send_char
  send_char-Balance s can_write client sent inside quiet visible =
      elim (Bool-cases (owns s.owned_by client || is_free s.owned_by)) [
        | inl owned ↦ rw owned (owned-Balance s can_write client (sent % 256) inside quiet visible)
        | inr others ↦
            rw others (stored-pending s.char_buffer client (sent % 256) inside quiet visible)
      ]

  round-Balance :
      (s : TxServer) (can_write : Bool) (client : ℕ) (type : UartserverRequestType) (sent : ℕ)
      → Polite s (event can_write client type sent)
      → EndsIn
          (Balance s (brought (event can_write client type sent)))
          (tx_round s can_write client (record { type = type; data_ = sent }))
  unfolding tx_round Polite
  round-Balance s can_write client notifier_tx_good sent p =
      notified-Balance s client s.owned_by refl
  round-Balance s can_write client notifier_rx_good sent p = sym (append-nil (pending s))
  round-Balance s can_write client get_char sent p = sym (append-nil (pending s))
  round-Balance s can_write client send_char sent (inside, quiet, visible) =
      send_char-Balance s can_write client sent inside quiet visible
  round-Balance s can_write client release_lock sent p = rw (tx_release_lock_lem s client p) (
      unfold tx_released in
      rw (shown-unpark s.notifier_parking (reply_to client 0 ∷ [])) (sym (append-nil (pending s))))

  run-Balance :
      (s : TxServer) (e : TxEvent) (rest : List TxEvent) (actions : List UartAction)
      (r : Outcome (TxServer × List (List UartAction))) (s' : TxServer)
      → Balance s (brought e) (s', actions)
      → IsTold actions
      → EndsIn (RunBalance s' rest) r
      → EndsIn (RunBalance s (e ∷ rest)) (r >>= λ (last, more). ok (last, actions ∷ more))
  run-Balance s e rest actions (ok (last, more)) s' now told later = (
    append_assoc (shown actions) (shown_all more) (pending last)
        ∙ ap (◌++◌ (shown actions)) (later.0)
        ∙ sym (append_assoc (shown actions) (pending s') (brought_all rest))
        ∙ ap (λ l. l ++ brought_all rest) now
        ∙ append_assoc (pending s) (brought e) (brought_all rest),
    (told, later.1),
  )
  run-Balance s e rest actions assert_failed s' now told later = later
  run-Balance s e rest actions out_of_fuel s' now told later = later
  run-Balance s e rest actions out_of_bounds s' now told later = later

  -- From any state, a run of requests of polite clients ends without a failed assertion, and what the
  -- server has put out for a task, followed by the character of the task that it still holds back, is
  -- what it held back at the start followed by the characters that the task sent, in their order. Each
  -- character that is put out is followed by the reply to one task.
  pub tx_run-Balance :
      (s : TxServer) (events : List TxEvent)
      → IsPoliteRun s events
      → EndsIn (RunBalance s events) (tx_run s events)
  unfolding tx_run
  tx_run-Balance s [] p = (sym (append-nil (pending s)), tt)
  tx_run-Balance s (e ∷ rest) (polite, p) =
      EndsIn-bind
        (λ (s', actions).
          Balance s (brought e) (s', actions) × (IsTold actions × IsPoliteRun s' rest))
        (RunBalance s (e ∷ rest)) (tx_round s e.can_write e.client e.request)
        (λ (s', actions). (tx_run s' rest >>= λ (last, more). ok (last, actions ∷ more)))
        (λ (s', actions) (now, (told, p')).
          run-Balance s e rest actions (tx_run s' rest) s' now told (tx_run-Balance s' rest p'))
        (EndsIn-and (Balance s (brought e)) (λ (s', actions). IsTold actions × IsPoliteRun s' rest)
          (tx_round s e.can_write e.client e.request)
          (round-Balance s e.can_write e.client e.request.type e.request.data_ polite)
          (IfEnds-both _ _ (tx_round s e.can_write e.client e.request)
            (round-IsTold s e.can_write e.client e.request.type e.request.data_ polite) p))
