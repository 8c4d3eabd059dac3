-- ===== src/User/Clockserver/Wake.antt =====
-- src/user/clockserver.c: the order of the waiting clients, and whom a tick wakes.
use the_polling_express.Base.{
  ℕ, ◌+◌, ◌-◌, ◌≤◌, ◌<◌, ◌≡◌, refl, ap, ap₂, ◌∙◌, true, false, ◌==◌, List, [], ◌∷◌, arith, leb, ltb,
  length, if◌then◌else◌, map, Bool-cases, inl, inr,
}
use the_polling_express.Base.Int.{to_int, ℤ, pos, negsuc}
use the_polling_express.Base.Outcome.{Outcome, ok}
use the_polling_express.User.Clockserver.{
  RequestType, time, delay, delay_until, tick, Request, DelayNode, Clock, ClockReply, answer, ack,
  max_delays, insert, handle_delay_until, handle_delay, wake, handle_tick, handle,
}

-- ordered by time, and later than `t`
abbrev pub IsSorted : ℕ → List DelayNode → Type 0
IsSorted t [] = Unit
IsSorted t (n ∷ rest) = (t ≤ n.time) × IsSorted n.time rest

-- The waiting nodes are ordered and wait for a tick to come, and no node is lost.
pub record IsValid (c : Clock) : Type 0 where
  pub sorted : IsSorted (c.ticks + 1) c.waiting
  pub nodes : c.free + length c.waiting ≡ max_delays

insert-IsSorted :
    (t : ℕ) (n : DelayNode) (l : List DelayNode)
    → t ≤ n.time
    → IsSorted t l
    → IsSorted t (insert n l)
unfolding insert
insert-IsSorted t n [] h s = (h, tt)
insert-IsSorted t n (m ∷ l) h s = ground (arith, insert-IsSorted m.time n l)

length-insert : (n : DelayNode) (l : List DelayNode) → length (insert n l) ≡ length l + 1
unfolding insert
length-insert n [] = omega arith
length-insert n (m ∷ l) = ground (arith, length-insert n l)

-- The specification of a tick: those who wait for tick `t`, and those who wait for a later one.
unfoldable pub due : ℕ → List DelayNode → List DelayNode
due t [] = []
due t (n ∷ l) = if n.time == t then n ∷ due t l else due t l

unfoldable pub later : ℕ → List DelayNode → List DelayNode
later t [] = []
later t (n ∷ l) = if ltb t n.time then n ∷ later t l else later t l

abbrev pub wake_up : ℕ → DelayNode → ClockReply
wake_up t n = answer n.client (pos t)

none_due : (t s : ℕ) (l : List DelayNode) → t < s → IsSorted s l → (due t l ≡ []) × (later t l ≡ l)
unfolding due later
none_due t s [] h sorted = (refl, refl)
none_due t s (n ∷ l) h sorted =
    let (no_more, all) = none_due t n.time l (omega arith) sorted.1 in ground arith

IsSorted-le : (s t : ℕ) (l : List DelayNode) → s ≤ t → IsSorted t l → IsSorted s l
IsSorted-le s t [] h sorted = tt
IsSorted-le s t (n ∷ l) h sorted = (omega arith, sorted.1)

wake_lem :
    (t : ℕ) (l : List DelayNode) (free : ℕ)
    → IsSorted t l
    → let (left, freed, replies) = wake t l free in
      (left ≡ later t l)
      × (replies ≡ map (wake_up t) (due t l))
      × (freed + length left ≡ free + length l)
      × IsSorted (t + 1) left
unfolding wake due later
wake_lem t [] free sorted = (refl, refl, omega arith, tt)
wake_lem t (n ∷ l) free sorted = elim (Bool-cases (leb n.time t)) [
  | inl come ↦
      let ih = wake_lem t l (free + 1) (IsSorted-le t n.time l sorted.0 sorted.1) in
      let now : (n.time == t) ≡ true = ground arith in
      let not_later : ltb t n.time ≡ false = ground arith in
      rw (come, now, not_later) (ih.0, ap₂ ◌∷◌ refl ih.1, omega (arith, ih.2), ih.3)
  | inr waits ↦
      let (no_more, all) = none_due t n.time l (ground arith) sorted.1 in
      let not_now : (n.time == t) ≡ false = ground arith in
      let is_later : ltb t n.time ≡ true = ground arith in
      rw (waits, not_now, is_later, no_more, all) (refl, refl, refl, (ground arith, sorted.1))
]

-- `TICK` answers the notifier and then exactly the clients that wait for the tick that has come, in
-- the order in which they wait, and keeps exactly those who wait for a later one.
pub handle_tick_lem :
    (c : Clock) (client : ℕ)
    → IsValid c
    → let (c', replies) = handle_tick c client in
      (c'.ticks ≡ c.ticks + 1)
      × (c'.waiting ≡ later (c.ticks + 1) c.waiting)
      × (replies ≡ ack client ∷ map (wake_up (c.ticks + 1)) (due (c.ticks + 1) c.waiting))
      × IsValid c'
unfolding handle_tick
handle_tick_lem c client v =
    let (left, replies, nodes, sorted) = wake_lem (c.ticks + 1) c.waiting c.free v.sorted in
    (refl, left, ap (◌∷◌ (ack client)) replies, record { sorted = sorted; nodes = nodes ∙ v.nodes })

pub enqueue-IsValid :
    (c : Clock) (n : DelayNode)
    → IsValid c
    → c.ticks < n.time
    → 0 < c.free
    → IsValid (record c { waiting = insert n c.waiting; free = c.free - 1 })
enqueue-IsValid c n v late room = record {
  sorted = insert-IsSorted (c.ticks + 1) n c.waiting (omega arith) v.sorted;
  nodes = omega (arith, length-insert n c.waiting, v.nodes);
}

abbrev pub Returns : Outcome (Clock × List ClockReply) → Type 0
Returns r = (c : Clock) × (replies : List ClockReply) × (r ≡ ok (c, replies)) × IsValid c

handle_delay_until-Returns :
    (c : Clock) (client : ℕ) (until : ℤ)
    → IsValid c
    → length c.waiting < max_delays
    → Returns (handle_delay_until c client until)
unfolding handle_delay_until
handle_delay_until-Returns c client (negsuc n) v room = (c, _, refl, v)
handle_delay_until-Returns c client (pos t) v room = elim (Bool-cases (leb t c.ticks)) [
  | inl past ↦ rw past (c, _, refl, v)
  | inr coming ↦
      let free : ltb 0 c.free ≡ true = ground (arith, v.nodes) in
      rw (coming, free)
        (
          _,
          _,
          refl,
          enqueue-IsValid c (record { client = client; time = t }) v (ground arith) (ground arith),
        )
]

-- With a delay node left, every request is served, and the server's state stays valid.
pub handle-IsValid :
    (c : Clock) (client : ℕ) (req : Request)
    → IsValid c
    → length c.waiting < max_delays
    → Returns (handle c client req)
handle-IsValid c client req v room = go req.type req.data_
  where
    go :
        (type : RequestType) (data' : ℤ)
        → Returns (handle c client (record { type = type; data_ = data' }))
    go time d = unfold handle in (c, _, refl, v)
    go delay (negsuc n) = unfold handle handle_delay in (c, _, refl, v)
    go delay (pos t) =
        unfold handle handle_delay in
        handle_delay_until-Returns c client (to_int (pos (c.ticks + t))) v room
    go delay_until d = unfold handle in handle_delay_until-Returns c client d v room
    go tick d = unfold handle in (_, _, refl, (handle_tick_lem c client v).3)
