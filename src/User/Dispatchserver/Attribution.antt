-- ===== src/User/Dispatchserver/Attribution.antt =====
-- src/user/dispatchserver.c: whom the loop over the sensors attributes a triggered one to.
use the_polling_express.Base.{
  ℕ, ◌+◌, ◌≤◌, ◌<◌, ◌≡◌, refl, sym, ap, ◌∙◌, Bool, true, false, ◌&&◌, Option, none, some, List, [],
  ◌∷◌, ◌++◌, arith, length, ◌==◌, if◌then◌else◌, Bool-cases, inl, inr, length-append, All,
}
use mathlib.Core.List.{append-nil, append_assoc}
use the_polling_express.Base.Outcome.{Outcome, ok, EndsIn, EndsIn-bind, ◌>>=◌}
use the_polling_express.User.Virtual.{max_num_trains}
use the_polling_express.User.Dispatchserver.{
  Attributed, not_triggered, unattributed, to_train, max_subscribed_sensors,
}
use the_polling_express.User.Dispatchserver.Scan.{Hits, hit, scan, is_subscriber}
use the_polling_express.User.Dispatchserver.Hits.{Holding, Holding-ext, update, hit-Holding}

-- The specification of the pool: each sensor by its reading and its subscriber.
abbrev pub attribute : Bool → Option ℕ → Attributed
attribute false s = not_triggered
attribute true none = unattributed
attribute true (some v) = to_train v

abbrev pub pool_of : List Bool → List (Option ℕ) → List Attributed
pool_of [] ss = []
pool_of (r ∷ rs) [] = []
pool_of (r ∷ rs) (s ∷ ss) = attribute r s ∷ pool_of rs ss

-- the triggered sensors that the train `v` has subscribed to, from sensor `i` on
unfoldable pub sensors_of : ℕ → List Bool → List (Option ℕ) → ℕ → List ℕ
unfolding is_subscriber
sensors_of v [] ss i = []
sensors_of v (r ∷ rs) [] i = []
sensors_of v (r ∷ rs) (s ∷ ss) i =
    if r && is_subscriber v s then i ∷ sensors_of v rs ss (i + 1) else sensors_of v rs ss (i + 1)

-- a subscriber is a train
abbrev pub IsTrain : Option ℕ → Type 0
IsTrain none = Unit
IsTrain (some v) = v < max_num_trains

-- no buffer overflows
abbrev Fits : (ℕ → List ℕ) → List Bool → List (Option ℕ) → ℕ → Type 0
Fits q rs ss i = (v : ℕ) → length (q v) + length (sensors_of v rs ss i) ≤ max_subscribed_sensors

-- what the loop ends with
abbrev pub Scanned :
    (ℕ → List ℕ) → List Bool → List (Option ℕ) → ℕ → List Attributed × Hits → Type 0
Scanned q rs ss i (pool, h) =
    (pool ≡ pool_of rs ss)
    × Holding (λ v. q v ++ sensors_of v rs ss i) 0 h.sensor_attribution h.triggering_trains
    × (length h.sensor_attribution ≡ max_num_trains)

-- the bind of an entry of the pool to the rest of the loop
entry-Scanned :
    (q q' : ℕ → List ℕ) (r : Bool) (s : Option ℕ) (rs : List Bool) (ss : List (Option ℕ)) (i : ℕ)
    (entry : Attributed) (rest : Outcome (List Attributed × Hits))
    → entry ≡ attribute r s
    → ((v : ℕ) → q' v ++ sensors_of v rs ss (i + 1) ≡ q v ++ sensors_of v (r ∷ rs) (s ∷ ss) i)
    → EndsIn (Scanned q' rs ss (i + 1)) rest
    → EndsIn (Scanned q (r ∷ rs) (s ∷ ss) i) (rest >>= λ p. ok (entry ∷ p.0, p.1))
entry-Scanned q q' r s rs ss i entry rest e same h =
    EndsIn-bind _ _ rest _
      (λ p scanned. (
        ap (λ x. x ∷ p.0) e ∙ ap (◌∷◌ (attribute r s)) (scanned.0),
        Holding-ext _ _ 0 (p.1).sensor_attribution (p.1).triggering_trains same (scanned.1),
        scanned.2,
      ))
      h

sensors_of-other :
    (v : ℕ) (r : Bool) (s : Option ℕ) (rs : List Bool) (ss : List (Option ℕ)) (i : ℕ)
    → (r && is_subscriber v s) ≡ false
    → sensors_of v (r ∷ rs) (s ∷ ss) i ≡ sensors_of v rs ss (i + 1)
unfolding sensors_of
sensors_of-other v r s rs ss i e = rw e refl

sensors_of-hit :
    (v w : ℕ) (rs : List Bool) (ss : List (Option ℕ)) (i : ℕ)
    → (w == v) ≡ true
    → sensors_of v (true ∷ rs) (some w ∷ ss) i ≡ i ∷ sensors_of v rs ss (i + 1)
unfolding sensors_of is_subscriber
sensors_of-hit v w rs ss i e = rw e refl

-- A hit for `w` puts its sensor where the list of `w` has it, and leaves the others.
updated :
    (q : ℕ → List ℕ) (v w : ℕ) (rs : List Bool) (ss : List (Option ℕ)) (i : ℕ)
    → update q w (q w ++ i ∷ []) v ++ sensors_of v rs ss (i + 1)
      ≡ q v ++ sensors_of v (true ∷ rs) (some w ∷ ss) i
updated q v w rs ss i = elim (Bool-cases (w == v)) [
  | inl same ↦
      let here : w ≡ v = ground arith in
      rw (same, sensors_of-hit v w rs ss i same, here)
        (append_assoc (q v) (i ∷ []) (sensors_of v rs ss (i + 1)))
  | inr other ↦
      rw (other, sensors_of-other v true (some w) rs ss i (unfold is_subscriber in other)) refl
]

Fits-same :
    (q q' : ℕ → List ℕ) (r : Bool) (s : Option ℕ) (rs : List Bool) (ss : List (Option ℕ)) (i : ℕ)
    → ((v : ℕ) → q' v ++ sensors_of v rs ss (i + 1) ≡ q v ++ sensors_of v (r ∷ rs) (s ∷ ss) i)
    → Fits q (r ∷ rs) (s ∷ ss) i
    → Fits q' rs ss (i + 1)
Fits-same q q' r s rs ss i same fits v = omega (
  arith,
  ap length (same v),
  length-append (q' v) (sensors_of v rs ss (i + 1)),
  length-append (q v) (sensors_of v (r ∷ rs) (s ∷ ss) i),
  fits v,
)

untouched :
    (q : ℕ → List ℕ) (v : ℕ) (r : Bool) (s : Option ℕ) (rs : List Bool) (ss : List (Option ℕ))
    (i : ℕ)
    → (r && is_subscriber v s) ≡ false
    → q v ++ sensors_of v rs ss (i + 1) ≡ q v ++ sensors_of v (r ∷ rs) (s ∷ ss) i
untouched q v r s rs ss i e = rw (sensors_of-other v r s rs ss i e) refl

room_left :
    (q : ℕ → List ℕ) (w : ℕ) (rs : List Bool) (ss : List (Option ℕ)) (i : ℕ)
    → Fits q (true ∷ rs) (some w ∷ ss) i
    → length (q w) < max_subscribed_sensors
room_left q w rs ss i fits =
    omega (arith, fits w, ap length (sensors_of-hit w w rs ss i (ground arith)))

end-Holding :
    (q : ℕ → List ℕ) (ss : List (Option ℕ)) (i : ℕ) (h : Hits)
    → Holding q 0 h.sensor_attribution h.triggering_trains
    → Holding (λ v. q v ++ sensors_of v [] ss i) 0 h.sensor_attribution h.triggering_trains
unfolding sensors_of
end-Holding q ss i h held =
    Holding-ext q _ 0 h.sensor_attribution h.triggering_trains (λ v. sym (append-nil (q v))) held

-- The loop over the sensors ends, with the pool of the specification, and with the sensors of each train
-- in its buffer.
pub scan-Scanned :
    (q : ℕ → List ℕ) (rs : List Bool) (ss : List (Option ℕ)) (i : ℕ) (h : Hits)
    → length rs ≡ length ss
    → All IsTrain ss
    → Fits q rs ss i
    → length h.sensor_attribution ≡ max_num_trains
    → Holding q 0 h.sensor_attribution h.triggering_trains
    → EndsIn (Scanned q rs ss i) (scan rs ss i h)
unfolding scan
scan-Scanned q [] ss i h size trains fits six held = (refl, end-Holding q ss i h held, six)
scan-Scanned q (r ∷ rs) [] i h size trains fits six held = absurd (omega arith)
scan-Scanned q (false ∷ rs) (s ∷ ss) i h size trains fits six held =
    let same = λ (v : ℕ). untouched q v false s rs ss i refl in
    entry-Scanned q q false s rs ss i not_triggered (scan rs ss (i + 1) h) refl same (
      scan-Scanned q rs ss (i + 1) h (omega arith) (trains.1)
        (Fits-same q q false s rs ss i same fits) six held)
scan-Scanned q (true ∷ rs) (none ∷ ss) i h size trains fits six held =
    let same = λ (v : ℕ). untouched q v true none rs ss i (unfold is_subscriber in refl) in
    entry-Scanned q q true none rs ss i unattributed (scan rs ss (i + 1) h) refl same (
      scan-Scanned q rs ss (i + 1) h (omega arith) (trains.1)
        (Fits-same q q true none rs ss i same fits) six held)
scan-Scanned q (true ∷ rs) (some w ∷ ss) i h size trains fits six held =
    let q' = update q w (q w ++ i ∷ []) in
    let same = λ (v : ℕ). updated q v w rs ss i in
    EndsIn-bind _ _ (hit h i w) _
      (λ h' after.
        entry-Scanned q q' true (some w) rs ss i (to_train w) (scan rs ss (i + 1) h') refl same (
          scan-Scanned q' rs ss (i + 1) h' (omega arith) (trains.1)
            (Fits-same q q' true (some w) rs ss i same fits) (after.1 ∙ six) (after.0)))
      (hit-Holding q h i w held (omega (arith, trains.0)) (room_left q w rs ss i fits))
