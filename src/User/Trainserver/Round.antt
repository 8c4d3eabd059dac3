-- ===== src/User/Trainserver/Round.antt =====
-- src/user/trainserver.c: a round of the server keeps its state valid, and the request that ends it.
use the_polling_express.Base.{
  ℕ, ◌+◌, ◌≤◌, ◌<◌, ◌≡◌, refl, Bool, true, false, none, some, List, Option,
}
use the_polling_express.Base.Outcome.{Outcome, EndsIn, EndsIn-map, EndsIn-bind}
use the_polling_express.Common.Heap.{no_child}
use the_polling_express.User.Virtual.{max_num_trains}
use the_polling_express.User.Trainserver.{TrainTask, Trains}
use the_polling_express.User.Trainserver.Step.{
  TrainReq, worker, worker_sensor, sensor_event, branch_event, speed, reverse, switch, worker_cmd,
  TrainReply, flush_sensors, flush_branches, train_request, train_round, acked, handle_worker,
  handle_switch, handle_sensors, handle_speed, handle_reverse,
}
use the_polling_express.User.Trainserver.Queue.{is_switch, IsValid}
use the_polling_express.User.Trainserver.Plan.{
  IsPlanned, handle_speed-IsPlanned, handle_reverse-IsPlanned,
}
use the_polling_express.User.Trainserver.Switch.{handle_switch-IsPlanned}
use the_polling_express.User.Trainserver.Worker.{handle_worker-Answers}

-- What a request must be: a supported train, a switch that the event has an entry for, times below
-- 0x00FFFFFF, and nodes for its commands.
abbrev pub IsServable : Trains → TrainReq → Type 0
IsServable s (worker time) = Unit
IsServable s (worker_sensor readings time) = Unit
IsServable s sensor_event = Unit
IsServable s branch_event = Unit
IsServable s (speed v d time) = (v < max_num_trains) × (0 < s.free) × (time < no_child)
IsServable s (reverse v d time) = (v < max_num_trains) × (3 ≤ s.free) × (time + 510 < no_child)
IsServable s (switch sw d time) = (3 ≤ s.free) × (time + 40 < no_child) × (is_switch sw ≡ true)
IsServable s worker_cmd = ⊥

-- the state that a round leaves is valid
abbrev pub Keeps : Trains × List TrainReply → Type 0
Keeps r = IsValid (r.0)

same_queue : (s s' : Trains) → IsValid s → s'.heap ≡ s.heap → s'.free ≡ s.free → IsValid s'
same_queue s s' v same free = record {
  queue = rw same v.queue;
  nodes = rw (same, free) v.nodes;
  storage = rw same v.storage;
  placed = rw same v.placed;
}

flush_sensors-IsValid : (s : Trains) → IsValid s → Keeps (flush_sensors s)
unfolding flush_sensors
flush_sensors-IsValid s v = go s.sensor_waiting s.sensor_dirty
  where
    go :
        (waiting : Option ℕ) (dirty : Bool)
        → Keeps (flush_sensors (record s { sensor_waiting = waiting; sensor_dirty = dirty }))
    go none dirty = same_queue s _ v refl refl
    go (some t) true = same_queue s _ v refl refl
    go (some t) false = same_queue s _ v refl refl

flush_branches-IsValid : (s : Trains) → IsValid s → Keeps (flush_branches s)
unfolding flush_branches
flush_branches-IsValid s v = go s.branch_waiting s.branch_dirty
  where
    go :
        (waiting : Option ℕ) (dirty : Bool)
        → Keeps (flush_branches (record s { branch_waiting = waiting; branch_dirty = dirty }))
    go none dirty = same_queue s _ v refl refl
    go (some t) true = same_queue s _ v refl refl
    go (some t) false = same_queue s _ v refl refl

acked-Keeps :
    (s : Trains) (commands : List TrainTask) (client : ℕ) (r : Outcome Trains)
    → EndsIn (IsPlanned s commands) r
    → EndsIn Keeps (acked client r)
unfolding acked
acked-Keeps s commands client r h = EndsIn-bind _ Keeps r _ (λ s' p. p.valid) h

train_request-Keeps :
    (track_known : Bool) (s : Trains) (client : ℕ) (req : TrainReq)
    → IsValid s
    → IsServable s req
    → EndsIn Keeps (train_request track_known s client req)
unfolding train_request handle_sensors
train_request-Keeps track_known s client (worker time) v h =
    EndsIn-map _ Keeps (handle_worker track_known s client time) (λ r answers. answers.0)
      (handle_worker-Answers track_known s client time v)
train_request-Keeps track_known s client (worker_sensor readings time) v h =
    same_queue s _ v refl refl
train_request-Keeps track_known s client sensor_event v h = same_queue s _ v refl refl
train_request-Keeps track_known s client branch_event v h = same_queue s _ v refl refl
train_request-Keeps track_known s client (speed t d time) v (known, room, soon) =
    acked-Keeps s _ client (handle_speed s t d time)
      (handle_speed-IsPlanned s t d time v known room soon)
train_request-Keeps track_known s client (reverse t d time) v (known, room, soon) =
    acked-Keeps s _ client (handle_reverse s t d time)
      (handle_reverse-IsPlanned s t d time v known room soon)
train_request-Keeps track_known s client (switch sw d time) v (room, soon, known) =
    acked-Keeps s _ client (handle_switch s sw d time)
      (handle_switch-IsPlanned s sw d time v room soon known)
train_request-Keeps track_known s client worker_cmd v h = absurd h

-- In a valid state, a round for a request that can be served comes to its end, and the state it leaves
-- is valid: the heap in order, each of the 100 nodes free or in it, and each command one that can be
-- noted when it is sent.
pub train_round-IsValid :
    (track_known : Bool) (s : Trains) (client : ℕ) (req : TrainReq)
    → IsValid s
    → IsServable s req
    → EndsIn Keeps (train_round track_known s client req)
unfolding train_round
train_round-IsValid track_known s client req v h =
    EndsIn-bind Keeps Keeps (train_request track_known s client req) _
      (λ r kept.
        flush_branches-IsValid ((flush_sensors (r.0)).0) (flush_sensors-IsValid (r.0) kept))
      (train_request-Keeps track_known s client req v h)
