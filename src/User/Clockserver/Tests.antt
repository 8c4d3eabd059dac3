-- ===== src/User/Clockserver/Tests.antt =====
-- src/user/clockserver.c at concrete inputs.
use the_polling_express.Base.{ℕ, ◌+◌, ◌≡◌, refl, List, [], ◌∷◌, arith, map, inl, inr}
use the_polling_express.Base.Int.{pos, negsuc}
use the_polling_express.Base.Outcome.{ok}
use the_polling_express.User.Clockserver.{
  Request, delay, tick, DelayNode, Clock, answer, ack, start, handle, handle_tick, serve,
}
use the_polling_express.User.Clockserver.Wake.{
  IsValid, due, later, wake_up, Returns, handle_tick_lem, handle-IsValid,
}
use the_polling_express.User.Clockserver.Liveness.{Served, serve_answers}

abbrev node : ℕ → ℕ → DelayNode
node client t = record { client = client; time = t }

-- at tick 4, clients 7 and 8 wait for tick 5, and client 9 for tick 6
abbrev busy : Clock
busy = record { ticks = 4; waiting = node 7 5 ∷ node 8 5 ∷ node 9 6 ∷ []; free = 47 }

busy-IsValid : IsValid busy
busy-IsValid = omega arith

abbrev ticking : Request
ticking = record { type = tick; data_ = pos 0 }

abbrev long_delay : Request
long_delay = record { type = delay; data_ = pos 3 }

tick_busy : handle_tick busy 2 ≡ (
  record { ticks = 5; waiting = node 9 6 ∷ []; free = 49 },
  ack 2 ∷ answer 7 (pos 5) ∷ answer 8 (pos 5) ∷ [],
)
unfolding handle_tick
tick_busy = refl

abbrev script : List (ℕ × Request)
script = (2, ticking) ∷ (3, long_delay) ∷ (2, ticking) ∷ []

abbrev after : Clock
after = record { ticks = 6; waiting = node 3 8 ∷ []; free = 49 }

serve-script :
    serve busy script
    ≡ ok (after, ack 2 ∷ answer 7 (pos 5) ∷ answer 8 (pos 5) ∷ ack 2 ∷ answer 9 (pos 6) ∷ [])
unfolding serve handle
serve-script = refl

negative_delay :
    handle start 3 (record { type = delay; data_ = negsuc 0 })
    ≡ ok (start, answer 3 (negsuc 1) ∷ [])
unfolding handle
negative_delay = refl

handle_tick_example :
    let (c', replies) = handle_tick busy 2 in
    (c'.ticks ≡ 4 + 1)
    × (c'.waiting ≡ later (4 + 1) busy.waiting)
    × (replies ≡ ack 2 ∷ map (wake_up (4 + 1)) (due (4 + 1) busy.waiting))
    × IsValid c'
handle_tick_example = handle_tick_lem busy 2 busy-IsValid

handle-IsValid_example : Returns (handle busy 3 long_delay)
handle-IsValid_example = handle-IsValid busy 3 long_delay busy-IsValid (omega arith)

serve_answers_example :
    Served
      (node 9 6)
      after
      (ack 2 ∷ answer 7 (pos 5) ∷ answer 8 (pos 5) ∷ ack 2 ∷ answer 9 (pos 6) ∷ [])
serve_answers_example =
    serve_answers (node 9 6) busy after script
      (ack 2 ∷ answer 7 (pos 5) ∷ answer 8 (pos 5) ∷ ack 2 ∷ answer 9 (pos 6) ∷ []) busy-IsValid
      (omega arith) (inr (inr (inl refl))) serve-script
