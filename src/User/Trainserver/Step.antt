-- ===== src/User/Trainserver/Step.antt =====
-- src/user/trainserver.c, `task_trainserver`: what a round does for each type of request.
use the_polling_express.Base.{
  ℕ, ◌+◌, ◌-◌, Bool, true, false, ◌&&◌, ◌||◌, not, Option, none, some, List, [], ◌∷◌, ◌++◌, set,
  replicate, leb, ltb, ◌==◌, if◌then◌else◌,
}
use the_polling_express.Base.Outcome.{Outcome, ok, ◌>>=◌, finished, assert_failed}
use the_polling_express.Common.Heap.{heap_peek, heap_pop}
use the_polling_express.User.Virtual.{v_p_train_num}
use the_polling_express.User.Trainserver.{
  TrainTask, TrainEvent, Trains, blank, task_time, schedule, schedule_branch, with_light,
}

-- The requests, with the task that sends it as an argument of the round.
pub data TrainReq : Type 0 where
  worker : ℕ → TrainReq
  worker_sensor : List Bool → ℕ → TrainReq
  sensor_event branch_event : TrainReq
  speed reverse switch : ℕ → ℕ → ℕ → TrainReq
  worker_cmd : TrainReq

-- The replies: the three types that the worker gets, nothing, or the event.
pub data TrainReply : Type 0 where
  run_cmd : ℕ → ℕ → ℕ → ℕ → ℕ → TrainReply
  run_sensor run_nothing : ℕ → TrainReply
  ack : ℕ → TrainReply
  notify : ℕ → TrainEvent → TrainReply

-- what the branch of a command that is sent leaves in the event
unfoldable pub note_branch : Trains → TrainTask → Outcome Trains
note_branch s top = elim top.branch [
  | none ↦ ok s
  | some sw ↦
      if ltb sw 20
      then ok (record s {
        event = record s.event { branch_a = set s.event.branch_a sw top.branch_state };
        branch_dirty = true;
      })
      else if leb 153 sw && leb sw 156
      then ok (record s {
        event = record s.event { branch_b = set s.event.branch_b (sw - 153) top.branch_state };
        branch_dirty = true;
      })
      else assert_failed
]

unfoldable pub send_top : Trains → ℕ → TrainTask → Outcome (Trains × List TrainReply)
unfolding note_branch
send_top s client top = do
  noted ← note_branch s top
  heap ← finished (heap_pop blank task_time noted.heap)
  ok (
    record noted { heap = heap; free = noted.free + 1 },
    run_cmd client top.a top.b top.len top.reqid ∷ [],
  )

-- `track_known` is `which_track != '?'`, set by src/user/track_data.c.
module _ (track_known : Bool) where
  unfoldable pub ask_sensors : Bool → ℕ → List TrainReply
  ask_sensors idle client =
      if idle && track_known then run_sensor client ∷ [] else run_nothing client ∷ []

  unfoldable pub handle_worker : Trains → ℕ → ℕ → Outcome (Trains × List TrainReply)
  unfolding send_top ask_sensors
  handle_worker s client time = elim (heap_peek s.heap blank) [
    | none ↦ ok (s, ask_sensors true client)
    | some top ↦
        if leb top.time time
        then send_top s client top
        else ok (s, ask_sensors (ltb (time + 7) top.time) client)
  ]

-- `event.sensors[i] |= sensor_res[i] & ~sensors[i]`
unfoldable pub add_edges : List Bool → List Bool → List Bool → List Bool
add_edges [] readings old = []
add_edges (e ∷ es) [] old = e ∷ es
add_edges (e ∷ es) (r ∷ rs) [] = e ∷ es
add_edges (e ∷ es) (r ∷ rs) (o ∷ os) = (e || r && not o) ∷ add_edges es rs os

unfoldable pub any_set : List Bool → Bool
any_set [] = false
any_set (b ∷ bs) = b || any_set bs

unfoldable pub handle_sensors : Trains → ℕ → List Bool → ℕ → Trains × List TrainReply
unfolding add_edges any_set
handle_sensors s client readings time =
    let edges = add_edges s.event.sensors readings s.sensors in
    (
      record s {
        event = record s.event { sensors = edges; time = time };
        sensor_dirty = s.sensor_dirty || any_set edges;
        sensors = readings;
      },
      ack client ∷ [],
    )

unfoldable pub handle_speed : Trains → ℕ → ℕ → ℕ → Outcome Trains
unfolding schedule with_light
handle_speed s target data' time = do
  train ← v_p_train_num target
  schedule s time (with_light data') train 2

unfoldable pub handle_reverse : Trains → ℕ → ℕ → ℕ → Outcome Trains
unfolding schedule with_light
handle_reverse s target data' time = do
  train ← v_p_train_num target
  s1 ← schedule s time 16 train 2
  s2 ← schedule s1 (time + 500) 15 train 2
  schedule s2 (time + 510) (with_light data') train 2

-- `!data`
unfoldable pub other_way : ℕ → ℕ
other_way data' = if data' == 0 then 1 else 0

-- the switch that lies in one with `sw`
unfoldable pub partner : ℕ → Option ℕ
partner sw =
    if sw == 153
    then some 154
    else if sw == 154
    then some 153
    else if sw == 155
    then some 156
    else if sw == 156
    then some 155
    else none

unfoldable pub handle_switch : Trains → ℕ → ℕ → ℕ → Outcome Trains
unfolding schedule schedule_branch other_way partner
handle_switch s sw data' time = do
  s1 ← schedule_branch s time sw data'
  elim (partner sw) [
    | none ↦ schedule s1 (time + 20) 32 0 1
    | some other ↦ schedule_branch s1 (time + 20) other (other_way data') >>= λ s2.
        schedule s2 (time + 20 + 20) 32 0 1
  ]

unfoldable pub acked : ℕ → Outcome Trains → Outcome (Trains × List TrainReply)
acked client r = r >>= λ s. ok (s, ack client ∷ [])

-- the two tests at the end of a round
unfoldable pub flush_sensors : Trains → Trains × List TrainReply
flush_sensors s = elim s.sensor_waiting [
  | none ↦ (s, [])
  | some waiting ↦
      if s.sensor_dirty
      then (
        record s {
          sensor_waiting = none;
          sensor_dirty = false;
          event = record s.event { sensors = replicate 80 false };
        },
        notify waiting s.event ∷ [],
      )
      else (s, [])
]

unfoldable pub flush_branches : Trains → Trains × List TrainReply
flush_branches s = elim s.branch_waiting [
  | none ↦ (s, [])
  | some waiting ↦
      if s.branch_dirty
      then (record s { branch_waiting = none; branch_dirty = false }, notify waiting s.event ∷ [])
      else (s, [])
]

module _ (track_known : Bool) where
  unfoldable pub train_request : Trains → ℕ → TrainReq → Outcome (Trains × List TrainReply)
  unfolding handle_worker handle_sensors handle_speed handle_reverse handle_switch acked
  train_request s client req = elim req [
    | worker time ↦ handle_worker track_known s client time
    | worker_sensor readings time ↦ ok (handle_sensors s client readings time)
    | sensor_event ↦ ok (record s { sensor_waiting = some client }, [])
    | branch_event ↦ ok (record s { branch_waiting = some client }, [])
    | speed target data' time ↦ acked client (handle_speed s target data' time)
    | reverse target data' time ↦ acked client (handle_reverse s target data' time)
    | switch target data' time ↦ acked client (handle_switch s target data' time)
    | worker_cmd ↦ assert_failed
  ]

  -- one round of the loop
  unfoldable pub train_round : Trains → ℕ → TrainReq → Outcome (Trains × List TrainReply)
  unfolding train_request flush_sensors flush_branches
  train_round s client req = do
    (s1, replies) ← train_request s client req
    let (s2, sensed) = flush_sensors s1 in
        let (s3, branched) = flush_branches s2 in ok (s3, replies ++ sensed ++ branched)
