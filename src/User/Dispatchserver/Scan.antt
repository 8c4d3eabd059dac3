-- ===== src/User/Dispatchserver/Scan.antt =====
-- src/user/dispatchserver.c: the round for DISPATCHSERVER_SENSOR_UPDATE, and a round of the loop.
use the_polling_express.Base.{
  ℕ, ◌+◌, Bool, true, false, ◌||◌, Option, none, some, List, [], ◌∷◌, ◌++◌, get_elem?, set,
  replicate, ◌==◌, if◌then◌else◌,
}
use the_polling_express.Base.Outcome.{Outcome, ok, out_of_bounds, ◌>>=◌, ◌>>◌, kassert}
use the_polling_express.Common.CircularBuffer.{
  Status, done, cb_full, cb_empty, CircularBuffer, cb_init, cb_push_back, cb_to_array,
}
use the_polling_express.User.Virtual.{max_num_trains}
use the_polling_express.User.Dispatchserver.{
  Attributed, not_triggered, unattributed, to_train, Dispatch, max_subscribed_sensors,
  DispatchRequest, subscribe, attribution_print, attribution_courier_ready, subscription_print,
  worker_init, sensor_update, DispatchReply, good, triggered, printed, couriered, in_array,
  handle_subscribe, handle_courier, handle_worker_init, inform_subscriber,
}

unfoldable pub not_full : Status → Bool
not_full done = true
not_full cb_full = false
not_full cb_empty = true

-- the two arrays with an entry for each train
pub record Hits : Type 0 where
  pub sensor_attribution : List (CircularBuffer ℕ)
  pub triggering_trains : List Bool

unfoldable pub no_hits : Hits
unfolding cb_init
no_hits = record {
  sensor_attribution = replicate max_num_trains (cb_init 0 max_subscribed_sensors);
  triggering_trains = replicate max_num_trains false;
}

-- a triggered sensor `i` with the subscriber `v`
unfoldable pub hit : Hits → ℕ → ℕ → Outcome Hits
unfolding cb_push_back not_full
hit h i v = do
  cb ← in_array (get_elem? h.sensor_attribution v)
  kassert (not_full ((cb_push_back cb i false).0))
  ok (record {
    sensor_attribution = set h.sensor_attribution v ((cb_push_back cb i false).1);
    triggering_trains = set h.triggering_trains v true;
  })

-- the loop over the sensors, from `i` on: the entries of the pool, and the arrays
unfoldable pub scan : List Bool → List (Option ℕ) → ℕ → Hits → Outcome (List Attributed × Hits)
unfolding hit
scan [] subscribers i h = ok ([], h)
scan (r ∷ rs) [] i h = out_of_bounds
scan (false ∷ rs) (s ∷ ss) i h = do (pool, h') ← scan rs ss (i + 1) h; ok (not_triggered ∷ pool, h')
scan (true ∷ rs) (none ∷ ss) i h = do
  (pool, h') ← scan rs ss (i + 1) h
  ok (unattributed ∷ pool, h')
scan (true ∷ rs) (some v ∷ ss) i h = do
  h1 ← hit h i v
  (pool, h') ← scan rs ss (i + 1) h1
  ok (to_train v ∷ pool, h')

-- `subscribers[i] == train_num`
unfoldable pub is_subscriber : ℕ → Option ℕ → Bool
is_subscriber v none = false
is_subscriber v (some w) = w == v

-- the loop that takes the subscriptions of a train away, and whether it found one
unfoldable pub clear_train : ℕ → List (Option ℕ) → List (Option ℕ) × Bool
unfolding is_subscriber
clear_train v [] = ([], false)
clear_train v (s ∷ ss) =
    let (rest, found) = clear_train v ss in
    if is_subscriber v s then (none ∷ rest, true) else (s ∷ rest, found)

-- the loop over the trains, from `v` on
unfoldable pub deliver :
    List (CircularBuffer ℕ)
    → List Bool
    → List (Option ℕ)
    → ℕ
    → ℕ
    → List (Option ℕ)
    → Bool
    → Outcome (List (Option ℕ) × Bool × List DispatchReply)
unfolding clear_train cb_to_array
deliver [] triggering workers v time subscribers changed = ok (subscribers, changed, [])
deliver (cb ∷ cbs) [] workers v time subscribers changed = out_of_bounds
deliver (cb ∷ cbs) (t ∷ ts) [] v time subscribers changed = out_of_bounds
deliver (cb ∷ cbs) (t ∷ ts) (worker ∷ workers) v time subscribers changed =
    let (cleared, found) = clear_train v subscribers in
    let subscribers' = if t then cleared else subscribers in
    let changed' = if t then changed || found else changed in
    let rest = deliver cbs ts workers (v + 1) time subscribers' changed' in
    if cb.count == 0 then rest else do
      task ← in_array worker
      (last, changed_last, replies) ← rest
      ok (last, changed_last, triggered task (cb_to_array 0 cb) time ∷ replies)

unfoldable pub print_pool : Dispatch → List Attributed → ℕ → Dispatch × List DispatchReply
print_pool s pool time = elim s.sensor_printer [
  | none ↦ (s, [])
  | some printer ↦ (record s { sensor_printer = none }, printed printer pool time ∷ [])
]

-- A pool that the courier has not taken yet stays, and the new one is lost.
unfoldable pub courier_pool : Dispatch → List Attributed → Dispatch × List DispatchReply
courier_pool s pool = elim s.courier_buffer [
  | some old ↦ (s, [])
  | none ↦ elim s.attribution_courier [
    | some courier ↦ (record s { attribution_courier = none }, couriered courier pool ∷ [])
    | none ↦ (record s { courier_buffer = some pool }, [])
  ]
]

unfoldable pub handle_update :
    Dispatch → ℕ → List Bool → ℕ → Outcome (Dispatch × List DispatchReply)
unfolding scan deliver print_pool courier_pool no_hits
handle_update s client readings time = do
  (pool, h) ← scan readings s.subscribers 0 no_hits
  (subscribers, changed, replies) ←
      deliver h.sensor_attribution h.triggering_trains s.straightpathworkers 0 time s.subscribers
        s.subscription_changed
  let s1 = record s { subscribers = subscribers; subscription_changed = changed } in
      let (s2, prints) = print_pool s1 pool time in
      let (s3, couriers) = courier_pool s2 pool in
      ok (s3, good client ∷ replies ++ prints ++ couriers)

unfoldable pub dispatch_request :
    Dispatch → ℕ → DispatchRequest → Outcome (Dispatch × List DispatchReply)
unfolding handle_subscribe handle_courier handle_worker_init handle_update
dispatch_request s client req = elim req [
  | subscribe sensors train_num ↦ handle_subscribe s client sensors train_num >>= λ s'. ok (s', [])
  | attribution_print ↦ ok (record s { sensor_printer = some client }, [])
  | subscription_print ↦ ok (record s { subscribe_printer = some client }, [])
  | attribution_courier_ready ↦ ok (handle_courier s client)
  | worker_init train_num ↦ handle_worker_init s client train_num >>= λ s'. ok (s', [])
  | sensor_update readings time ↦ handle_update s client readings time
]

-- one round of the loop
unfoldable pub dispatch_round :
    Dispatch → ℕ → DispatchRequest → Outcome (Dispatch × List DispatchReply)
unfolding dispatch_request inform_subscriber
dispatch_round s client req = do
  (s1, replies) ← dispatch_request s client req
  let (s2, informed) = inform_subscriber s1 in ok (s2, replies ++ informed)
