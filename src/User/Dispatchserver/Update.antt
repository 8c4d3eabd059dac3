-- ===== src/User/Dispatchserver/Update.antt =====
-- src/user/dispatchserver.c: the whole round for a reading.
use the_polling_express.Base.{
  ℕ, ◌≤◌, ◌≡◌, refl, sym, ap, ap₂, ◌∙◌, Bool, Option, none, some, List, [], ◌∷◌, ◌++◌, arith,
  length, All, map,
}
use the_polling_express.Base.Outcome.{EndsIn, EndsIn-bind}
use the_polling_express.User.Virtual.{max_num_trains}
use the_polling_express.User.Dispatchserver.{
  Attributed, Dispatch, DispatchReply, good, printed, couriered, max_subscribed_sensors,
}
use the_polling_express.User.Dispatchserver.Scan.{
  scan, no_hits, deliver, print_pool, courier_pool, handle_update,
}
use the_polling_express.User.Dispatchserver.Hits.{no_hits-Holding}
use the_polling_express.User.Dispatchserver.Attribution.{IsTrain, pool_of, sensors_of, scan-Scanned}
use the_polling_express.User.Dispatchserver.Deliver.{Delivered, deliver-Delivered}
use the_polling_express.User.Dispatchserver.Release.{release, reports, IsStaffed}

-- what the printer and the courier are told of a pool
abbrev pub print_of : Option ℕ → List Attributed → ℕ → List DispatchReply
print_of none pool time = []
print_of (some printer) pool time = printed printer pool time ∷ []

abbrev pub courier_of : Option (List Attributed) → Option ℕ → List Attributed → List DispatchReply
courier_of (some old) courier pool = []
courier_of none none pool = []
courier_of none (some courier) pool = couriered courier pool ∷ []

-- the courier that still waits behind the round, and the pool that is kept for the next one
abbrev pub waiting_after : Option (List Attributed) → Option ℕ → Option ℕ
waiting_after (some old) courier = courier
waiting_after none courier = none

abbrev pub kept_after :
    Option (List Attributed) → Option ℕ → List Attributed → Option (List Attributed)
kept_after (some old) courier pool = some old
kept_after none none pool = some pool
kept_after none (some courier) pool = none

-- what `print_pool` leaves for `courier_pool`
abbrev Printed : Dispatch → List Attributed → ℕ → Dispatch × List DispatchReply → Type 0
Printed s pool time (s', prints) =
    (prints ≡ print_of s.sensor_printer pool time)
    × (s'.subscribers ≡ s.subscribers)
    × (s'.courier_buffer ≡ s.courier_buffer)
    × (s'.attribution_courier ≡ s.attribution_courier)
    × (s'.sensor_printer ≡ none)
    × (s'.straightpathworkers ≡ s.straightpathworkers)

print_pool-Printed :
    (s : Dispatch) (pool : List Attributed) (time : ℕ)
    → Printed s pool time (print_pool s pool time)
unfolding print_pool
print_pool-Printed s pool time = go s.sensor_printer
  where
    go :
        (printer : Option ℕ)
        → let s' = record s { sensor_printer = printer } in
          Printed s' pool time (print_pool s' pool time)
    go none = (refl, refl, refl, refl, refl, refl)
    go (some printer) = (refl, refl, refl, refl, refl, refl)

-- what `courier_pool` does, by the pool that is kept and the courier that waits
abbrev Couriered :
    Dispatch
    → Option (List Attributed)
    → Option ℕ
    → List Attributed
    → Dispatch × List DispatchReply
    → Type 0
Couriered s buffer courier pool (s', replies) =
    (replies ≡ courier_of buffer courier pool)
    × (s'.subscribers ≡ s.subscribers)
    × (s'.courier_buffer ≡ kept_after buffer courier pool)
    × (s'.attribution_courier ≡ waiting_after buffer courier)
    × (s'.sensor_printer ≡ s.sensor_printer)
    × (s'.straightpathworkers ≡ s.straightpathworkers)

courier_pool-courier_of :
    (s : Dispatch) (pool : List Attributed)
    → Couriered s s.courier_buffer s.attribution_courier pool (courier_pool s pool)
unfolding courier_pool
courier_pool-courier_of s pool = go s.courier_buffer s.attribution_courier
  where
    go :
        (buffer : Option (List Attributed)) (courier : Option ℕ)
        → let s' = record s { courier_buffer = buffer; attribution_courier = courier } in
          Couriered s' buffer courier pool (courier_pool s' pool)
    go (some old) courier = (refl, refl, refl, refl, refl, refl)
    go none (some courier) = (refl, refl, refl, refl, refl, refl)
    go none none = (refl, refl, refl, refl, refl, refl)

-- the triggered sensors of each train
abbrev pub hits_of : Dispatch → List Bool → ℕ → List ℕ
hits_of s readings v = sensors_of v readings s.subscribers 0

-- The subscribers are trains, each train with a triggered sensor has a worker, and no more than five
-- sensors of a train are triggered.
pub record IsReady (s : Dispatch) (readings : List Bool) : Type 0 where
  pub size : length readings ≡ length s.subscribers
  pub trains : All IsTrain s.subscribers
  pub workers : length s.straightpathworkers ≡ max_num_trains
  pub staffed : IsStaffed (hits_of s readings) s.straightpathworkers 0
  pub fits : (v : ℕ) → length (hits_of s readings v) ≤ max_subscribed_sensors

abbrev pub Served : Dispatch → ℕ → List Bool → ℕ → Dispatch × List DispatchReply → Type 0
Served s client readings time (s', replies) =
    let pool = pool_of readings s.subscribers in
    (s'.subscribers ≡ map (release (hits_of s readings) 0) s.subscribers)
    × (replies
        ≡ good client ∷ reports (hits_of s readings) s.straightpathworkers 0 time
          ++ print_of s.sensor_printer pool time
          ++ courier_of s.courier_buffer s.attribution_courier pool)
    × (s'.sensor_printer ≡ none)
    × (s'.courier_buffer ≡ kept_after s.courier_buffer s.attribution_courier pool)
    × (s'.attribution_courier ≡ waiting_after s.courier_buffer s.attribution_courier)
    × (s'.straightpathworkers ≡ s.straightpathworkers)

-- the statements behind the two loops
told :
    (s : Dispatch) (client : ℕ) (readings : List Bool) (time : ℕ) (pool : List Attributed)
    (subscribers : List (Option ℕ)) (changed : Bool) (replies : List DispatchReply)
    → pool ≡ pool_of readings s.subscribers
    → Delivered
        (hits_of s readings)
        s.straightpathworkers
        0
        time
        s.subscribers
        (subscribers, changed, replies)
    → let s1 = record s { subscribers = subscribers; subscription_changed = changed } in
      let (s2, prints) = print_pool s1 pool time in
      let (s3, couriers) = courier_pool s2 pool in
      Served s client readings time (s3, good client ∷ replies ++ prints ++ couriers)
told s client readings time pool subscribers changed replies e (released, reports') =
    let s1 = record s { subscribers = subscribers; subscription_changed = changed } in
    let (prints, same, buffer, courier, printer, workers) = print_pool-Printed s1 pool time in
    let (couriers, same', buffer', courier', printer', workers') =
      courier_pool-courier_of ((print_pool s1 pool time).0) pool in
    let prints' = prints ∙ ap (λ p. print_of s.sensor_printer p time) e in
    let couriers' =
      couriers
      ∙ ap₂ (λ b c. courier_of b c pool) buffer courier
      ∙ ap (λ p. courier_of s.courier_buffer s.attribution_courier p) e in
    (
      same' ∙ same ∙ released,
      ap₂ ◌++◌ (ap₂ ◌++◌ (ap (◌∷◌ (good client)) reports') prints') couriers',
      printer' ∙ printer,
      buffer'
          ∙ ap₂ (λ b c. kept_after b c pool) buffer courier
          ∙ ap (λ p. kept_after s.courier_buffer s.attribution_courier p) e,
      courier' ∙ ap₂ waiting_after buffer courier,
      workers' ∙ workers,
    )

-- For readings of which each triggered sensor with a subscriber can be delivered, the round ends. The
-- workers are told exactly the triggered sensors that their trains have subscribed to, in order, each
-- train that is told loses all its subscriptions and no other train does. A printer that waits gets the
-- pool, which has each triggered sensor with its subscriber, and waits no more. If no older pool is kept,
-- a courier that waits gets the pool and waits no more, and without one the pool is kept; an older pool
-- stays, and the new one is lost for the courier.
pub handle_update-Served :
    (s : Dispatch) (client : ℕ) (readings : List Bool) (time : ℕ)
    → IsReady s readings
    → EndsIn (Served s client readings time) (handle_update s client readings time)
unfolding handle_update
handle_update-Served s client readings time ready =
    let q = hits_of s readings in
    EndsIn-bind _ _ (scan readings s.subscribers 0 no_hits) _
      (λ p scanned.
        let h = p.1 in
        EndsIn-bind _ _
          (deliver h.sensor_attribution h.triggering_trains s.straightpathworkers 0 time
            s.subscribers s.subscription_changed)
          _ (λ r d. told s client readings time (p.0) (r.0) (r.1) (r.2) (scanned.0) d)
          (deliver-Delivered q time 0 h.sensor_attribution h.triggering_trains s.straightpathworkers
            s.subscribers s.subscription_changed (scanned.1) (ready.workers ∙ sym (scanned.2))
            (omega (arith, scanned.2)) ready.staffed ready.trains))
      (scan-Scanned (λ v. []) readings s.subscribers 0 no_hits ready.size ready.trains
        (λ v. omega (arith, ready.fits v)) (no_hits-Holding.1) (no_hits-Holding.0))
