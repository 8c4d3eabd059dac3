-- ===== src/User/Dispatchserver/Tests.antt =====
-- src/user/dispatchserver.c at concrete inputs: four sensors, of which the train 2 has two.
use the_polling_express.Base.{
  ℕ, ◌≤◌, ◌≡◌, refl, Bool, true, false, none, some, Option, List, [], ◌∷◌, arith, length,
}
use the_polling_express.Base.Outcome.{ok, assert_failed, EndsIn, ◌>>=◌}
use the_polling_express.User.Dispatchserver.{
  Dispatch, DispatchReply, good, triggered, handle_subscribe, max_subscribed_sensors,
}
use the_polling_express.User.Dispatchserver.Scan.{handle_update, is_subscriber}
use the_polling_express.User.Dispatchserver.Attribution.{sensors_of}
use the_polling_express.User.Dispatchserver.Update.{IsReady, Served, handle_update-Served, hits_of}

abbrev four : Dispatch
four = record {
  straightpathworkers = none ∷ some 31 ∷ some 32 ∷ none ∷ none ∷ none ∷ [];
  sensor_printer = none;
  subscribe_printer = none;
  attribution_courier = none;
  courier_buffer = none;
  subscribers = some 2 ∷ some 1 ∷ some 2 ∷ none ∷ [];
  subscription_changed = false;
}

abbrev readings : List Bool
readings = false ∷ true ∷ true ∷ true ∷ []

told_test :
    ◌>>=◌ {B = List (Option ℕ) × List DispatchReply}
      (handle_update four 9 readings 70)
      (λ r. ok ((r.0).subscribers, r.1))
    ≡ ok (
      none ∷ none ∷ none ∷ none ∷ [],
      good 9 ∷ triggered 31 (1 ∷ []) 70 ∷ triggered 32 (2 ∷ []) 70 ∷ [],
    )
unfolding handle_update
told_test = refl

four-fits : (v : ℕ) → length (hits_of four readings v) ≤ max_subscribed_sensors
unfolding sensors_of is_subscriber
four-fits v = ground arith

four-IsReady : IsReady four readings
unfolding sensors_of is_subscriber
four-IsReady = record {
  size = refl;
  trains = (omega arith, (omega arith, (omega arith, (tt, tt))));
  workers = refl;
  staffed = (refl, (refl, (refl, (refl, tt))));
  fits = four-fits;
}

-- the same with a printer and a courier that wait
abbrev attended : Dispatch
attended = record four { sensor_printer = some 40; attribution_courier = some 41 }

attended-IsReady : IsReady attended readings
attended-IsReady = record {
  size = four-IsReady.size;
  trains = four-IsReady.trains;
  workers = four-IsReady.workers;
  staffed = four-IsReady.staffed;
  fits = four-IsReady.fits;
}

handle_update-Served_example :
    EndsIn (Served attended 9 readings 70) (handle_update attended 9 readings 70)
handle_update-Served_example = handle_update-Served attended 9 readings 70 attended-IsReady

-- a sensor that has a subscriber already
second_subscriber : (handle_subscribe four 33 (3 ∷ 1 ∷ []) 3) ≡ assert_failed
unfolding handle_subscribe
second_subscriber = refl
