-- ===== src/User/Trainserver/Tests.antt =====
-- src/user/trainserver.c at concrete inputs.
use the_polling_express.Base.{
  ℕ, ◌≡◌, refl, Bool, true, false, none, List, [], ◌∷◌, arith, ◌||◌, replicate, inl,
  get_or-replicate,
}
use the_polling_express.Base.Outcome.{ok, assert_failed, EndsIn, ◌>>=◌}
use the_polling_express.Common.Heap.{heap_init, heap_add, heap_peek, heap_pop}
use the_polling_express.Common.Heap.Keys.{Holds-empty}
use the_polling_express.User.Trainserver.{Trains, blank, task_time, trains_start}
use the_polling_express.User.Trainserver.Step.{
  TrainReply, switch, handle_worker, handle_switch, train_round, run_cmd, notify,
}
use the_polling_express.User.Trainserver.Queue.{IsValid, IsPlaced, is_switch}
use the_polling_express.User.Trainserver.Plan.{IsPlanned}
use the_polling_express.User.Trainserver.Switch.{handle_switch-IsPlanned}
use the_polling_express.User.Trainserver.Plan.{switch_plan}
use the_polling_express.User.Trainserver.Worker.{Answers, handle_worker-Answers}
use the_polling_express.User.Trainserver.Round.{Keeps, train_round-IsValid}
use the_polling_express.User.Trainserver.Edges.{
  SensorInput, reading, asks, reported, IsCurrent, IsFlushed, feed, feed-rose, rose, bit, column,
}
use the_polling_express.User.Trainserver.Unplaced.{handle_switch-unplaced}

start-IsValid : IsValid trains_start
unfolding trains_start heap_init
start-IsValid = record {
  queue = record {
    valid = record { room = omega arith; ordered = λ c p q. absurd (omega arith) };
    keys = Holds-empty blank task_time _ trains_start.heap refl;
  };
  nodes = refl;
  storage = refl;
  placed = Holds-empty blank task_time IsPlaced trains_start.heap refl;
}

-- the switch 153, which lies in one with 154, and the worker that asks when the second one is due
second_switch :
    (handle_switch trains_start 153 0 50 >>= λ s.
    handle_worker true s 4 50 >>= λ r. handle_worker true (r.0) 4 70 >>= λ r'. ok (r'.1))
    ≡ ok (run_cmd 4 34 154 2 1 ∷ [])
unfolding trains_start handle_switch handle_worker heap_add heap_peek heap_pop
second_switch = refl

handle_switch_example :
    EndsIn
      (IsPlanned trains_start (switch_plan trains_start 153 0 50))
      (handle_switch trains_start 153 0 50)
unfolding trains_start is_switch
handle_switch_example =
    handle_switch-IsPlanned trains_start 153 0 50 start-IsValid (omega arith) (omega arith) refl

handle_worker_example :
    EndsIn (Answers true trains_start 4 50) (handle_worker true trains_start 4 50)
handle_worker_example = handle_worker-Answers true trains_start 4 50 start-IsValid

train_round_example : EndsIn Keeps (train_round true trains_start 4 (switch 156 1 50))
unfolding trains_start is_switch
train_round_example =
    train_round-IsValid true trains_start 4 (switch 156 1 50) start-IsValid
      (omega arith, omega arith, refl)

-- the sensor 1 is set
abbrev few : Trains
few = record {
  heap = heap_init [];
  free = 0;
  reqid = 0;
  sensors = false ∷ true ∷ replicate 78 false;
  sensor_dirty = false;
  sensor_waiting = none;
  branch_dirty = false;
  branch_waiting = none;
  event = record { time = 0; sensors = replicate 80 false; branch_a = []; branch_b = [] };
}

-- the sensor 0 rises, task 9 asks, and the sensor rises again
abbrev inputs : List SensorInput
inputs =
    reading (true ∷ true ∷ replicate 78 false) 5
    ∷ asks 9
    ∷ reading (replicate 80 false) 6
    ∷ reading (true ∷ replicate 79 false) 7
    ∷ []

feed_test :
    ◌≡◌ {A = List Bool × List TrainReply}
      ((feed few 4 inputs).0.event.sensors, (feed few 4 inputs).1)
      (
        true ∷ replicate 79 false,
        notify 9 (record few.event { time = 5; sensors = true ∷ replicate 79 false }) ∷ [],
      )
unfolding feed
feed_test = refl

few-IsCurrent : IsCurrent few
few-IsCurrent = record {
  event = refl;
  last = refl;
  dirty = (λ h. ground arith, λ (i, h). let unset = get_or-replicate false 80 i in ground arith);
}

feed-rose_example :
    let (s', sent) = feed few 4 inputs in
    IsCurrent s'
    × IsFlushed s'
    × ((i : ℕ)
        → (reported i sent || bit s'.event.sensors i)
          ≡ (bit few.event.sensors i || rose (bit few.sensors i) (column i inputs)))
feed-rose_example = feed-rose few 4 inputs few-IsCurrent (inl refl) (refl, (refl, (refl, tt)))

handle_switch-unplaced_example :
    (handle_switch trains_start 100 1 50 >>= λ s. handle_worker true s 4 50) ≡ assert_failed
unfolding is_switch
handle_switch-unplaced_example = handle_switch-unplaced true 100 1 50 4 50 refl (omega arith)
