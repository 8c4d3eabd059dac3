-- ===== src/User/Clockserver/Runs.antt =====
-- Runs of src/user/clockserver.c: the state and the replies at the end of a sequence of requests.
use the_polling_express.Base.{
  ℕ, ◌+◌, ◌≤◌, ◌<◌, ◌≡◌, inl, inr, refl, true, List, [], ◌∷◌, ◌++◌, arith, leb, ltb, ◌==◌,
  Bool-cases, Has,
}
use the_polling_express.Base.Int.{to_int, ℤ, pos, negsuc}
use the_polling_express.Base.Outcome.{Outcome, ok, assert_failed, out_of_fuel, out_of_bounds, ◌>>=◌}
use the_polling_express.User.Clockserver.{
  RequestType, time, delay, delay_until, tick, Request, DelayNode, Clock, ClockReply, insert,
  handle_delay_until, handle_delay, handle, serve,
}
use the_polling_express.User.Clockserver.Wake.{
  IsValid, due, later, handle_tick_lem, enqueue-IsValid,
}

-- what holds of the state and the replies when a run ends; a failed assertion ends nothing
abbrev pub Ends : (Clock → List ClockReply → Type 0) → Outcome (Clock × List ClockReply) → Type 0
Ends P (ok (c, replies)) = P c replies
Ends P assert_failed = Unit
Ends P out_of_fuel = Unit
Ends P out_of_bounds = Unit

pub Ends-map :
    (P Q : Clock → List ClockReply → Type 0) (r : Outcome (Clock × List ClockReply))
    → ((c : Clock) (replies : List ClockReply) → P c replies → Q c replies)
    → Ends P r
    → Ends Q r
Ends-map P Q (ok (c, replies)) f h = f c replies h
Ends-map P Q assert_failed f h = tt
Ends-map P Q out_of_fuel f h = tt
Ends-map P Q out_of_bounds f h = tt

pub Has-insert_old : (n m : DelayNode) (l : List DelayNode) → Has n l → Has n (insert m l)
unfolding insert
Has-insert_old n m [] h = absurd h
Has-insert_old n m (k ∷ l) h = elim (Bool-cases (ltb k.time m.time)) [
  | inl before ↦ rw before (elim h [ inl e ↦ inl e | inr r ↦ inr (Has-insert_old n m l r) ])
  | inr here ↦ rw here (inr h)
]

pub Has-insert_new : (m : DelayNode) (l : List DelayNode) → Has m (insert m l)
unfolding insert
Has-insert_new m [] = inl refl
Has-insert_new m (k ∷ l) = elim (Bool-cases (ltb k.time m.time)) [
  | inl before ↦ rw before (inr (Has-insert_new m l))
  | inr here ↦ rw here (inl refl)
]

pub Has-due : (t : ℕ) (n : DelayNode) (l : List DelayNode) → n.time ≡ t → Has n l → Has n (due t l)
unfolding due
Has-due t n [] now h = absurd h
Has-due t n (m ∷ l) now (inl e) =
    let yes_now : (m.time == t) ≡ true = ground arith in rw yes_now (inl e)
Has-due t n (m ∷ l) now (inr h) = elim (Bool-cases (m.time == t)) [
  | inl e ↦ rw e (inr (Has-due t n l now h))
  | inr e ↦ rw e (Has-due t n l now h)
]

pub Has-later :
    (t : ℕ) (n : DelayNode) (l : List DelayNode) → t < n.time → Has n l → Has n (later t l)
unfolding later
Has-later t n [] after h = absurd h
Has-later t n (m ∷ l) after (inl e) =
    let yes_later : ltb t m.time ≡ true = ground arith in rw yes_later (inl e)
Has-later t n (m ∷ l) after (inr h) = elim (Bool-cases (ltb t m.time)) [
  | inl e ↦ rw e (inr (Has-later t n l after h))
  | inr e ↦ rw e (Has-later t n l after h)
]

-- the rest of a run, behind the replies sent so far
Ends-append :
    (P : Clock → List ClockReply → Type 0) (sent : List ClockReply)
    (r : Outcome (Clock × List ClockReply))
    → Ends (λ c more. P c (sent ++ more)) r
    → Ends P (r >>= λ (c, more). ok (c, sent ++ more))
Ends-append P sent (ok (c, more)) h = h
Ends-append P sent assert_failed h = tt
Ends-append P sent out_of_fuel h = tt
Ends-append P sent out_of_bounds h = tt

-- a request and the rest of a run
pub Ends-serve :
    (P Q : Clock → List ClockReply → Type 0) (rest : List (ℕ × Request))
    (r : Outcome (Clock × List ClockReply))
    → ((c : Clock) (sent : List ClockReply)
        → P c sent
        → Ends (λ c' more. Q c' (sent ++ more)) (serve c rest))
    → Ends P r
    → Ends Q (r >>= λ (c, sent). (serve c rest >>= λ (c', more). ok (c', sent ++ more)))
Ends-serve P Q rest (ok (c, sent)) f h = Ends-append Q sent (serve c rest) (f c sent h)
Ends-serve P Q rest assert_failed f h = tt
Ends-serve P Q rest out_of_fuel f h = tt
Ends-serve P Q rest out_of_bounds f h = tt

-- Ticks only grow, and the state stays valid.
abbrev pub Grows : Clock → Clock → List ClockReply → Type 0
Grows c c' replies = IsValid c' × (c.ticks ≤ c'.ticks)

delay_until-Grows :
    (c : Clock) (client : ℕ) (until : ℤ)
    → IsValid c
    → Ends (Grows c) (handle_delay_until c client until)
unfolding handle_delay_until
delay_until-Grows c client (negsuc t) v = (v, omega arith)
delay_until-Grows c client (pos t) v = elim (Bool-cases (leb t c.ticks)) [
  | inl past ↦ rw past (v, omega arith)
  | inr coming ↦ elim (Bool-cases (ltb 0 c.free)) [
    | inl room ↦
        rw (coming, room)
          (
            enqueue-IsValid c (record { client = client; time = t }) v (ground arith)
                (ground arith),
            omega arith,
          )
    | inr full ↦ rw (coming, full) tt
  ]
]

handle-Grows :
    (c : Clock) (client : ℕ) (type : RequestType) (until : ℤ)
    → IsValid c
    → Ends (Grows c) (handle c client (record { type = type; data_ = until }))
unfolding handle handle_delay
handle-Grows c client time d v = (v, omega arith)
handle-Grows c client delay (negsuc t) v = (v, omega arith)
handle-Grows c client delay (pos t) v = delay_until-Grows c client (to_int (pos (c.ticks + t))) v
handle-Grows c client delay_until d v = delay_until-Grows c client d v
handle-Grows c client tick d v =
    let (ticks, waiting, replies, valid) = handle_tick_lem c client v in
    (valid, omega (arith, ticks))

pub serve-Grows :
    (c : Clock) (reqs : List (ℕ × Request)) → IsValid c → Ends (Grows c) (serve c reqs)
unfolding serve
serve-Grows c [] v = (v, omega arith)
serve-Grows c ((client, req) ∷ rest) v =
    Ends-serve (Grows c) (Grows c) rest (handle c client req)
      (λ c' sent g.
        Ends-map (Grows c') (λ c'' more. Grows c c'' (sent ++ more)) (serve c' rest)
          (λ c'' more g'. (g'.0, omega (arith, g.1, g'.1))) (serve-Grows c' rest g.0))
      (handle-Grows c client req.type req.data_ v)
