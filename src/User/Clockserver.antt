-- ===== src/User/Clockserver.antt =====
-- src/user/clockserver.c: the server that counts ticks and wakes its clients. Requests come from
-- `Receive` one at a time; a step returns the new state and the replies that it sends, in order.
-- The chain of delay nodes from `head` is a list, and the chain of free ones is its length. `ticks`
-- is an `int` that starts at 0 and grows by 1 each 10 ms, so it stays below 2^31 for 248 days; the
-- model does not let it overflow. The sum of `ticks` and the length of a Delay wraps around.
pub mod Wake
pub mod Runs
pub mod Liveness
mod Tests
use the_polling_express.Base.{
  ℕ, ◌+◌, ◌-◌, Bool, List, [], ◌∷◌, ◌++◌, leb, ltb, ◌==◌, not, if◌then◌else◌,
}
use the_polling_express.Base.Int.{ℤ, pos, negsuc, to_int}
use the_polling_express.Base.Outcome.{Outcome, ok, ◌>>=◌, ◌>>◌, kassert}

pub data RequestType : Type 0 where
  time delay delay_until tick : RequestType

pub record Request : Type 0 where
  pub type : RequestType
  pub data_ : ℤ

pub record DelayNode : Type 0 where
  pub client : ℕ
  pub time : ℕ

pub record Clock : Type 0 where
  pub ticks : ℕ
  pub waiting : List DelayNode
  pub free : ℕ

-- A reply of `sizeof(int)` bytes carries a number, one of length 0 nothing.
pub data ClockReply : Type 0 where
  answer : ℕ → ℤ → ClockReply
  ack : ℕ → ClockReply

abbrev pub max_delays : ℕ
max_delays = 50

unfoldable pub start : Clock
start = record { ticks = 0; waiting = []; free = max_delays }

-- the loop that finds the place of a node, and the node put there
unfoldable pub insert : DelayNode → List DelayNode → List DelayNode
insert cur [] = cur ∷ []
insert cur (n ∷ rest) = if ltb n.time cur.time then n ∷ insert cur rest else cur ∷ n ∷ rest

-- behind the test for `DELAY`, with `req.data` the time to wait for
unfoldable pub handle_delay_until : Clock → ℕ → ℤ → Outcome (Clock × List ClockReply)
unfolding insert
handle_delay_until c client (negsuc n) = ok (c, answer client (pos c.ticks) ∷ [])
handle_delay_until c client (pos t) =
    if leb t c.ticks then ok (c, answer client (pos c.ticks) ∷ []) else do
      kassert (ltb 0 c.free)
      ok (
        record c {
          waiting = insert (record { client = client; time = t }) c.waiting;
          free = c.free - 1;
        },
        [],
      )

unfoldable pub handle_delay : Clock → ℕ → ℤ → Outcome (Clock × List ClockReply)
unfolding handle_delay_until to_int
handle_delay c client (negsuc n) = ok (c, answer client (negsuc 1) ∷ [])
handle_delay c client (pos t) = handle_delay_until c client (to_int (pos (c.ticks + t)))

-- the loop of `TICK`: the nodes left, the nodes freed, and the replies
unfoldable pub wake : ℕ → List DelayNode → ℕ → List DelayNode × ℕ × List ClockReply
wake ticks [] free = ([], free, [])
wake ticks (n ∷ rest) free =
    let (left, freed, replies) = wake ticks rest (free + 1) in
    if leb n.time ticks
    then (left, freed, answer n.client (pos ticks) ∷ replies)
    else (n ∷ rest, free, [])

unfoldable pub handle_tick : Clock → ℕ → Clock × List ClockReply
unfolding wake
handle_tick c client =
    let ticks = c.ticks + 1 in
    let (left, freed, replies) = wake ticks c.waiting c.free in
    (record { ticks = ticks; waiting = left; free = freed }, ack client ∷ replies)

-- one round of the server's loop
unfoldable pub handle : Clock → ℕ → Request → Outcome (Clock × List ClockReply)
unfolding handle_delay handle_tick
handle c client req = elim req.type [
  | time ↦ ok (c, answer client (pos c.ticks) ∷ [])
  | delay ↦ handle_delay c client req.data_
  | delay_until ↦ handle_delay_until c client req.data_
  | tick ↦ ok (handle_tick c client)
]

-- the rounds of the server for a sequence of requests
unfoldable pub serve : Clock → List (ℕ × Request) → Outcome (Clock × List ClockReply)
serve c [] = ok (c, [])
serve c ((client, req) ∷ rest) = do
  (c', replies) ← handle c client req
  (c'', more) ← serve c' rest
  ok (c'', replies ++ more)
