-- ===== src/User/Clockserver/Liveness.antt =====
-- src/user/clockserver.c over time: a client that waits for a tick, and the requests in between.
use the_polling_express.Base.{
  ℕ, ◌+◌, ◌≤◌, ◌<◌, ◌≡◌, ◌⊎◌, inl, inr, refl, sym, true, false, List, [], ◌∷◌, ◌++◌, map, arith,
  leb, ltb, Bool-cases, ℕ_discrete, Has, Has-append_left, Has-append_right, Has-map,
}
use mathlib.Core.Path.{subst}
use the_polling_express.Base.Int.{to_int, to_int-pos, ℤ, pos, negsuc}
use the_polling_express.Base.Outcome.{ok}
use the_polling_express.User.Clockserver.{
  RequestType, time, delay, delay_until, tick, Request, DelayNode, Clock, ClockReply, ack,
  handle_delay_until, handle_delay, handle_tick, handle, serve,
}
use the_polling_express.User.Clockserver.Wake.{
  IsValid, due, later, wake_up, handle_tick_lem, enqueue-IsValid,
}
use the_polling_express.User.Clockserver.Runs.{
  Ends, Ends-map, Has-insert_old, Has-insert_new, Has-due, Has-later, Ends-serve, Grows,
  serve-Grows,
}

module _ (n : DelayNode) where
  -- The node still waits for a tick to come, or its tick has come and its client has the answer.
  abbrev pub Served : Clock → List ClockReply → Type 0
  Served c replies =
      ((c.ticks < n.time) × Has n c.waiting) ⊎ ((n.time ≤ c.ticks) × Has (wake_up n.time n) replies)

  abbrev Kept : Clock → Clock → List ClockReply → Type 0
  Kept c c' replies = IsValid c' × (c.ticks ≤ c'.ticks) × Served c' replies

  tick-Kept :
      (c : Clock) (client : ℕ)
      → IsValid c
      → c.ticks < n.time
      → Has n c.waiting
      → let (c', replies) = handle_tick c client in Kept c c' replies
  tick-Kept c client v early h =
      let (ticks, waiting, replies, valid) = handle_tick_lem c client v in
      (valid, omega (arith, ticks), served ticks waiting replies)
    where
      served :
          (handle_tick c client).0.ticks ≡ c.ticks + 1
          → (handle_tick c client).0.waiting ≡ later (c.ticks + 1) c.waiting
          → (handle_tick c client).1
            ≡ ack client ∷ map (wake_up (c.ticks + 1)) (due (c.ticks + 1) c.waiting)
          → Served (handle_tick c client).0 (handle_tick c client).1
      served ticks waiting replies =
          rw (ticks, waiting, replies)
            (elim (ℕ_discrete n.time (c.ticks + 1)) [
              | yes now ↦ inr (
                omega arith,
                inr (
                    subst
                      (λ s.
                        Has (wake_up s n)
                          (map (wake_up (c.ticks + 1)) (due (c.ticks + 1) c.waiting)))
                      (sym now)
                      (Has-map (wake_up (c.ticks + 1)) n (due (c.ticks + 1) c.waiting)
                        (Has-due (c.ticks + 1) n c.waiting now h))),
              )
              | no not_now ↦ inl (omega arith, Has-later (c.ticks + 1) n c.waiting (omega arith) h)
            ])

  delay_until-Kept :
      (c : Clock) (client : ℕ) (until : ℤ)
      → IsValid c
      → c.ticks < n.time
      → Has n c.waiting
      → Ends (Kept c) (handle_delay_until c client until)
  unfolding handle_delay_until
  delay_until-Kept c client (negsuc t) v early h = (v, omega arith, inl (early, h))
  delay_until-Kept c client (pos t) v early h = elim (Bool-cases (leb t c.ticks)) [
    | inl past ↦ rw past (v, omega arith, inl (early, h))
    | inr coming ↦ elim (Bool-cases (ltb 0 c.free)) [
      | inl room ↦
          rw (coming, room)
            (
              enqueue-IsValid c (record { client = client; time = t }) v (ground arith)
                  (ground arith),
              omega arith,
              inl (early, Has-insert_old n (record { client = client; time = t }) c.waiting h),
            )
      | inr full ↦ rw (coming, full) tt
    ]
  ]

  handle-Kept :
      (c : Clock) (client : ℕ) (type : RequestType) (until : ℤ)
      → IsValid c
      → c.ticks < n.time
      → Has n c.waiting
      → Ends (Kept c) (handle c client (record { type = type; data_ = until }))
  unfolding handle handle_delay
  handle-Kept c client time d v early h = (v, omega arith, inl (early, h))
  handle-Kept c client delay (negsuc t) v early h = (v, omega arith, inl (early, h))
  handle-Kept c client delay (pos t) v early h =
      delay_until-Kept c client (to_int (pos (c.ticks + t))) v early h
  handle-Kept c client delay_until d v early h = delay_until-Kept c client d v early h
  handle-Kept c client tick d v early h = tick-Kept c client v early h

  serve-Kept :
      (c : Clock) (reqs : List (ℕ × Request))
      → IsValid c
      → c.ticks < n.time
      → Has n c.waiting
      → Ends (Kept c) (serve c reqs)
  unfolding serve
  serve-Kept c [] v early h = (v, omega arith, inl (early, h))
  serve-Kept c ((client, req) ∷ rest) v early h =
      Ends-serve (Kept c) (Kept c) rest (handle c client req)
        (λ c' sent (v', grows, served). elim served [
          | inl (early', h') ↦
              Ends-map (Kept c') (λ c'' more. Kept c c'' (sent ++ more)) (serve c' rest)
                (λ c'' more (v'', grows', served'). (
                  v'',
                  omega (arith, grows, grows'),
                  elim served' [
                    | inl waits ↦ inl waits
                    | inr (come, answered) ↦
                        inr (come, Has-append_right (wake_up n.time n) sent more answered)
                  ],
                ))
                (serve-Kept c' rest v' early' h')
          | inr (come, answered) ↦
              Ends-map (Grows c') (λ c'' more. Kept c c'' (sent ++ more)) (serve c' rest)
                (λ c'' more (v'', grows'). (
                  v'',
                  omega (arith, grows, grows'),
                  inr (
                    omega (arith, come, grows'),
                    Has-append_left (wake_up n.time n) sent more answered,
                  ),
                ))
                (serve-Grows c' rest v')
        ])
        (handle-Kept c client req.type req.data_ v early h)

  -- Whatever requests come, a client that waits for a tick keeps waiting before that tick, and once
  -- it has come has been answered with that tick's number.
  pub serve_answers :
      (c c' : Clock) (reqs : List (ℕ × Request)) (replies : List ClockReply)
      → IsValid c
      → c.ticks < n.time
      → Has n c.waiting
      → serve c reqs ≡ ok (c', replies)
      → Served c' replies
  serve_answers c c' reqs replies v early h e =
      (subst (Ends (Kept c)) e (serve-Kept c reqs v early h)).2

-- A client that delays for a positive number of ticks, while a node is free, waits for the tick that
-- is that many later, if an `int` holds that tick, and is not answered before.
pub delay_enqueues :
    (c : Clock) (client t : ℕ)
    → 0 < t
    → 0 < c.free
    → c.ticks + t < 0x80000000
    → (c' : Clock) × (handle c client (record { type = delay; data_ = pos t }) ≡ ok (c', []))
      × (c'.ticks ≡ c.ticks)
      × Has (record { client = client; time = c.ticks + t }) c'.waiting
unfolding handle handle_delay handle_delay_until
delay_enqueues c client t p room held =
    let coming : leb (c.ticks + t) c.ticks ≡ false = ground arith in
    let free : ltb 0 c.free ≡ true = ground arith in
    rw (to_int-pos (c.ticks + t) held, handle_delay_until, coming, free)
      (_, refl, refl, Has-insert_new (record { client = client; time = c.ticks + t }) c.waiting)
