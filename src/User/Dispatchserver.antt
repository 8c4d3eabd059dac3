-- ===== src/User/Dispatchserver.antt =====
-- src/user/dispatchserver.c: a worker of a train subscribes to sensors, and the server attributes a
-- sensor that is triggered to the train that subscribed to it. A request is one round of the loop. A
-- train or task of -1 is `none`, and a reading has `sensor_readings[a] & 0x80 >> b` as entry 8a + b. A
-- `Reply` to the task -1, and an access of a train's entry for a number from 6 on, is out of bounds.
pub mod Scan
pub mod Hits
pub mod Attribution
pub mod Release
pub mod Deliver
pub mod Update
mod Tests
use the_polling_express.Base.{
  ℕ, zero, suc, ◌+◌, Bool, true, false, ◌||◌, not, Option, none, some, List, [], ◌∷◌, ◌++◌,
  get_elem?, set, replicate, length, leb, ltb, ◌==◌, if◌then◌else◌,
}
use the_polling_express.Base.Outcome.{Outcome, ok, out_of_bounds, ◌>>=◌, ◌>>◌, kassert}
use the_polling_express.Common.CircularBuffer.{
  Status, done, cb_full, cb_empty, CircularBuffer, cb_init, cb_push_back, cb_to_array,
}
use the_polling_express.User.Virtual.{max_num_trains}

abbrev pub max_subscribed_sensors : ℕ
max_subscribed_sensors = 5

abbrev pub num_sensors : ℕ
num_sensors = 80

-- an entry of `sensor_pool`
pub data Attributed : Type 0 where
  not_triggered unattributed : Attributed
  to_train : ℕ → Attributed

pub record Dispatch : Type 0 where
  pub straightpathworkers : List (Option ℕ)
  pub sensor_printer : Option ℕ
  pub subscribe_printer : Option ℕ
  pub attribution_courier : Option ℕ
  pub courier_buffer : Option (List Attributed)
  pub subscribers : List (Option ℕ)
  pub subscription_changed : Bool

unfoldable pub dispatch_start : Dispatch
dispatch_start = record {
  straightpathworkers = replicate max_num_trains none;
  sensor_printer = none;
  subscribe_printer = none;
  attribution_courier = none;
  courier_buffer = none;
  subscribers = replicate num_sensors none;
  subscription_changed = false;
}

pub data DispatchRequest : Type 0 where
  subscribe : List ℕ → ℕ → DispatchRequest
  attribution_print attribution_courier_ready subscription_print : DispatchRequest
  worker_init : ℕ → DispatchRequest
  sensor_update : List Bool → ℕ → DispatchRequest

-- a reply, with the task that it goes to
pub data DispatchReply : Type 0 where
  good : ℕ → DispatchReply
  triggered : ℕ → List ℕ → ℕ → DispatchReply
  printed : ℕ → List Attributed → ℕ → DispatchReply
  couriered : ℕ → List Attributed → DispatchReply
  subscriptions : ℕ → List (Option ℕ) → DispatchReply

abbrev pub in_array : {A : Type 0} → Option A → Outcome A
in_array none = out_of_bounds
in_array (some a) = ok a

unfoldable pub no_one : Option ℕ → Bool
no_one none = true
no_one (some v) = false

-- the loop over the sensors of a subscription
unfoldable pub subscribe_loop : List (Option ℕ) → List ℕ → ℕ → Outcome (List (Option ℕ))
unfolding no_one
subscribe_loop subscribers [] train_num = ok subscribers
subscribe_loop subscribers (sensor ∷ rest) train_num = do
  old ← in_array (get_elem? subscribers sensor)
  kassert (no_one old)
  subscribe_loop (set subscribers sensor (some train_num)) rest train_num

unfoldable pub handle_subscribe : Dispatch → ℕ → List ℕ → ℕ → Outcome Dispatch
unfolding subscribe_loop
handle_subscribe s client sensors train_num = do
  kassert (leb (length sensors) max_subscribed_sensors)
  old ← in_array (get_elem? s.straightpathworkers train_num)
  subscribers ← subscribe_loop s.subscribers sensors train_num
  ok (record s {
    straightpathworkers = set s.straightpathworkers train_num (some client);
    subscribers = subscribers;
    subscription_changed = true;
  })

unfoldable pub handle_courier : Dispatch → ℕ → Dispatch × List DispatchReply
handle_courier s client = elim s.courier_buffer [
  | none ↦ (record s { attribution_courier = some client }, [])
  | some pool ↦
      (record s { attribution_courier = none; courier_buffer = none }, couriered client pool ∷ [])
]

unfoldable pub handle_worker_init : Dispatch → ℕ → ℕ → Outcome Dispatch
handle_worker_init s client train_num = do
  old ← in_array (get_elem? s.straightpathworkers train_num)
  ok (record s { straightpathworkers = set s.straightpathworkers train_num (some client) })

-- the test at the end of a round
unfoldable pub inform_subscriber : Dispatch → Dispatch × List DispatchReply
inform_subscriber s = elim s.subscribe_printer [
  | none ↦ (s, [])
  | some printer ↦
      if s.subscription_changed
      then (
        record s { subscription_changed = false; subscribe_printer = none },
        subscriptions printer s.subscribers ∷ [],
      )
      else (s, [])
]
