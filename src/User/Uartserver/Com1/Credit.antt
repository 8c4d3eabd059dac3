-- ===== src/User/Uartserver/Com1/Credit.antt =====
-- src/user/uartserver.c, `uart_com1_server`: no character is put out before the line is ready for it.
use the_polling_express.Base.{
  ℕ, ◌+◌, ◌%◌, ◌≤◌, ◌≡◌, refl, Bool, true, false, Option, none, some, List, [], ◌∷◌, ◌++◌, arith,
  ◌||◌, Bool-cases, inl, inr, if◌then◌else◌,
}
use the_polling_express.Base.Outcome.{
  Outcome, ok, out_of_bounds, assert_failed, out_of_fuel, ◌>>=◌, IfEnds, IfEnds-bind,
}
use the_polling_express.Common.CircularBuffer.{cb_pop_front}
use the_polling_express.User.Uartserver.{
  owns, is_free, next_owner, UartserverRequestType, notifier_tx_good, notifier_rx_good, send_char,
  get_char, release_lock, UartAction, put_char, reply_to,
}
use the_polling_express.User.Uartserver.Com1.{
  Com1Server, Com1Event, owner_of, com1_notified, com1_received, com1_send_owned, com1_send_char,
  com1_get_char, com1_pass_on, com1_release_lock, com1_round, com1_run,
}

-- the characters put out
abbrev pub puts : List UartAction → ℕ
puts [] = 0
puts (put_char c ∷ rest) = 1 + puts rest
puts (reply_to t d ∷ rest) = puts rest

abbrev pub puts_all : List (List UartAction) → ℕ
puts_all [] = 0
puts_all (actions ∷ rest) = puts actions + puts_all rest

-- the characters for which the server holds the line to be ready
abbrev pub ready : Com1Server → ℕ
ready s = if s.can_send then 1 else 0

-- the messages that the line is ready
abbrev pub notices : UartserverRequestType → ℕ
notices type = elim type [ notifier_tx_good ↦ 1 | _ ↦ 0 ]

abbrev pub notices_all : List Com1Event → ℕ
notices_all [] = 0
notices_all (e ∷ rest) = notices e.request.type + notices_all rest

abbrev Covered : Com1Server → ℕ → Com1Server × List UartAction → Type 0
Covered s news (s', actions) = puts actions + ready s' ≤ ready s + news

puts-append : (l m : List UartAction) → puts (l ++ m) ≡ puts l + puts m
puts-append [] m = omega arith
puts-append (put_char c ∷ l) m = omega (arith, puts-append l m)
puts-append (reply_to t d ∷ l) m = omega (arith, puts-append l m)

notified-Covered :
    (s : Com1Server) (client : ℕ) (owned_by : Option ℕ) (want_send can_send : Bool)
    → s.owned_by ≡ owned_by
    → s.want_send ≡ want_send
    → s.can_send ≡ can_send
    → IfEnds (Covered s 1) (com1_notified s client)
unfolding com1_notified owner_of
notified-Covered s client none true can_send o w c = rw (w, o) tt
notified-Covered s client (some owner) true can_send o w c = rw (w, o) (ground arith)
notified-Covered s client owned_by false can_send o w c = rw w (ground arith)

module _ (tx rx : ℕ) where
  owned-Covered : (s : Com1Server) (client c : ℕ) → Covered s 0 (com1_send_owned tx rx s client c)
  unfolding com1_send_owned
  owned-Covered s client c = elim (Bool-cases s.can_send) [
    | inl e ↦ rw e (omega arith)
    | inr e ↦ rw e (omega arith)
  ]

  send_char-Covered :
      (s : Com1Server) (client sent : ℕ) → Covered s 0 (com1_send_char tx rx s client sent)
  unfolding com1_send_char
  send_char-Covered s client sent =
      elim (Bool-cases (is_free s.owned_by || owns s.owned_by client)) [
        | inl e ↦ rw e (owned-Covered s client (sent % 256))
        | inr e ↦ rw e (omega arith)
      ]

  pass_on-Covered :
      (s : Com1Server) (owned_by : Option ℕ)
      → s.owned_by ≡ owned_by
      → Covered s 0 (com1_pass_on tx rx s)
  unfolding com1_pass_on
  pass_on-Covered s none o = rw o (omega arith)
  pass_on-Covered s (some owner) o = elim (Bool-cases s.can_send) [
    | inl e ↦ rw (o, e) (omega arith)
    | inr e ↦ rw (o, e) (omega arith)
  ]

  release-Covered :
      (s : Com1Server) (client : ℕ) → IfEnds (Covered s 0) (com1_release_lock tx rx s client)
  unfolding com1_release_lock
  release-Covered s client =
      let (status, item, rest) = cb_pop_front s.lock_cb in
      let passed = record s { owned_by = next_owner status item; lock_cb = rest } in
      let covered = pass_on-Covered passed passed.owned_by refl in
      let more = puts-append (com1_pass_on tx rx passed).1 (reply_to client 0 ∷ []) in
      elim (Bool-cases (owns s.owned_by client)) [
        | inl owner ↦ rw owner (omega (arith, covered, more))
        | inr other ↦ rw other tt
      ]

  get_char-Covered :
      (s : Com1Server) (can_read : Bool) (received : ℕ) (owned_by : Option ℕ)
      → s.owned_by ≡ owned_by
      → IfEnds (Covered s 0) (com1_get_char tx rx s can_read received)
  unfolding com1_get_char owner_of
  get_char-Covered s false received owned_by o = omega arith
  get_char-Covered s true received none o = rw o tt
  get_char-Covered s true received (some owner) o = rw o (omega arith)

  received-Covered :
      (s : Com1Server) (sent : ℕ) (owned_by : Option ℕ)
      → s.owned_by ≡ owned_by
      → Covered s 0 (s, com1_received s sent)
  unfolding com1_received
  received-Covered s sent none o = rw o (omega arith)
  received-Covered s sent (some owner) o = rw o (omega arith)

  round-Covered :
      (s : Com1Server) (can_read : Bool) (received client : ℕ) (type : UartserverRequestType)
      (sent : ℕ)
      → IfEnds
          (Covered s (notices type))
          (com1_round tx rx s can_read received client (record { type = type; data_ = sent }))
  unfolding com1_round
  round-Covered s can_read received client notifier_tx_good sent =
      notified-Covered s client s.owned_by s.want_send s.can_send refl refl refl
  round-Covered s can_read received client notifier_rx_good sent =
      received-Covered s sent s.owned_by refl
  round-Covered s can_read received client send_char sent = send_char-Covered s client sent
  round-Covered s can_read received client get_char sent =
      get_char-Covered s can_read received s.owned_by refl
  round-Covered s can_read received client release_lock sent = release-Covered s client

  abbrev RunCovered : Com1Server → ℕ → Com1Server × List (List UartAction) → Type 0
  RunCovered s news (s', actions) = puts_all actions + ready s' ≤ ready s + news

  run-Covered :
      (s s' : Com1Server) (now later : ℕ) (actions : List UartAction)
      (r : Outcome (Com1Server × List (List UartAction)))
      → Covered s now (s', actions)
      → IfEnds (RunCovered s' later) r
      → IfEnds (RunCovered s (now + later)) (r >>= λ (last, more). ok (last, actions ∷ more))
  run-Covered s s' now later actions (ok (last, more)) h k = omega (arith, h, k)
  run-Covered s s' now later actions assert_failed h k = tt
  run-Covered s s' now later actions out_of_fuel h k = tt
  run-Covered s s' now later actions out_of_bounds h k = tt

  -- In every run from any state that ends, for any requests, the characters put out are at most the
  -- messages that the line is ready, and one more if the server held it to be ready at the start; if
  -- it holds it to be ready at the end, that one is not used up.
  pub com1_run-Covered :
      (s : Com1Server) (events : List Com1Event)
      → IfEnds
          (λ (s', actions). puts_all actions + ready s' ≤ ready s + notices_all events)
          (com1_run tx rx s events)
  unfolding com1_run
  com1_run-Covered s [] = omega arith
  com1_run-Covered s (e ∷ rest) =
      IfEnds-bind (Covered s (notices e.request.type))
        (RunCovered s (notices e.request.type + notices_all rest))
        (com1_round tx rx s e.can_read e.received e.client e.request)
        (λ (s', actions). (com1_run tx rx s' rest >>= λ (last, more). ok (last, actions ∷ more)))
        (λ (s', actions) h.
          run-Covered s s' (notices e.request.type) (notices_all rest) actions
            (com1_run tx rx s' rest) h (com1_run-Covered s' rest))
        (round-Covered s e.can_read e.received e.client e.request.type e.request.data_)
