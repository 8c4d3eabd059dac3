-- ===== src/User/Track/Bypass.antt =====
-- src/user/track_data.c: the track without a sensor that is out of order.
use the_polling_express.Base.{
  ℕ, ◌<◌, ◌≡◌, refl, Bool, true, false, Option, none, some, List, arith, ◌||◌, ◌&&◌, not, ◌==◌,
  if◌then◌else◌,
}
use the_polling_express.Base.Check.{every, every_sound, &&-left, &&-right}
use the_polling_express.Base.Outcome.{
  Outcome, ok, out_of_bounds, assert_failed, out_of_fuel, EndsIn,
}
use the_polling_express.User.Track.Node.{Node}
use the_polling_express.User.Track.Shape.{at, index}
use the_polling_express.User.Track.TableA.{init_tracka}
use the_polling_express.User.Track.TableB.{init_trackb}
use the_polling_express.User.Track.Buffer.{table}
use the_polling_express.User.Track.Broken.{mark_sensor_broken, is_sensor}

is_to : ℕ → Option ℕ → Bool
is_to i none = false
is_to i (some j) = j == i

-- no edge of node `j` leads to node `i`
leads_past : List Node → ℕ → ℕ → Bool
unfolding is_to
leads_past track i j = not (is_to i (at track j).ahead.dest || is_to i (at track j).curved.dest)

-- No edge of node `j`, other than the sensor and its reverse, leads to one of them.
avoids : List Node → ℕ → ℕ → ℕ → Bool
avoids track i back j = (j == i || j == back) || (leads_past track i j && leads_past track back j)

is_bypassed : ℕ → ℕ → Outcome (List Node) → Bool
is_bypassed i back (ok track) = every 144 (avoids track i back)
is_bypassed i back assert_failed = false
is_bypassed i back out_of_fuel = false
is_bypassed i back out_of_bounds = false

has_bypass : List Node → ℕ → Bool
has_bypass track i =
    if is_sensor (at track i).type
    then is_bypassed i (index (at track i).reverse) (mark_sensor_broken track i)
    else true

table_bypasses : (a : Bool) → every 144 (has_bypass (table a)) ≡ true
unfolding every has_bypass is_bypassed avoids leads_past is_to mark_sensor_broken init_tracka
    init_trackb
table_bypasses true = refl
table_bypasses false = refl

table_bypass :
    (a : Bool) (i : ℕ)
    → i < 144
    → is_sensor (at (table a) i).type ≡ true
    → is_bypassed i (index (at (table a) i).reverse) (mark_sensor_broken (table a) i) ≡ true
unfolding has_bypass
table_bypass a i inside sensor =
    rw sensor at (every_sound (has_bypass (table a)) 144 i inside (table_bypasses a))

-- what `every` gives of the track that is left
bypassed_lem :
    (i back j : ℕ) (r : Outcome (List Node))
    → j < 144
    → (j == i || j == back) ≡ false
    → is_bypassed i back r ≡ true
    → EndsIn (λ track. (leads_past track i j ≡ true) × (leads_past track back j ≡ true)) r
unfolding is_bypassed avoids
bypassed_lem i back j (ok track) inside other checked =
    let passes = rw other at (every_sound (avoids track i back) 144 j inside checked) in
    (&&-left _ _ passes, &&-right _ _ passes)
bypassed_lem i back j assert_failed inside other checked = ground arith
bypassed_lem i back j out_of_fuel inside other checked = ground arith
bypassed_lem i back j out_of_bounds inside other checked = ground arith

-- For each sensor of both tracks `mark_sensor_broken` ends, in a track where no edge of another node leads
-- to the sensor or to its reverse.
mark_sensor_broken-avoids :
    (a : Bool) (i j : ℕ)
    → i < 144
    → is_sensor (at (table a) i).type ≡ true
    → j < 144
    → (j == i || j == index (at (table a) i).reverse) ≡ false
    → EndsIn
        (λ track.
          (leads_past track i j ≡ true)
          × (leads_past track (index (at (table a) i).reverse) j ≡ true))
        (mark_sensor_broken (table a) i)
mark_sensor_broken-avoids a i j inside sensor node other =
    bypassed_lem i (index (at (table a) i).reverse) j (mark_sensor_broken (table a) i) node other
      (table_bypass a i inside sensor)
