-- ===== src/User/Trainserver/Edges.antt =====
-- src/user/trainserver.c: which sensors the event reports. A sensor rises when a reading has it set and
-- the reading before has not.
use the_polling_express.Base.{
  ℕ, zero, suc, ◌≡◌, refl, ap, sym, ◌∙◌, Bool, true, false, ◌&&◌, ◌||◌, not, List, [], ◌∷◌, ◌++◌,
  arith, get_or, Option, none, some, ◌↔◌, ◌⊎◌, inl, inr, Bool-cases, replicate, length-replicate,
  get_or-replicate, length,
}
use the_polling_express.User.Trainserver.{Trains}
use the_polling_express.User.Trainserver.Step.{
  TrainReply, run_cmd, run_sensor, run_nothing, ack, notify, add_edges, any_set, handle_sensors,
  flush_sensors,
}

-- the bit of sensor `i`
abbrev pub bit : List Bool → ℕ → Bool
bit xs i = get_or xs i false

-- a sensor rises in a list of its readings, behind the reading `last`
unfoldable pub rose : Bool → List Bool → Bool
rose last [] = false
rose last (r ∷ rs) = r && not last || rose r rs

-- what the server hears of sensors: a reading with its time, and a task that asks for the event
pub data SensorInput : Type 0 where
  reading : List Bool → ℕ → SensorInput
  asks : ℕ → SensorInput

-- the statements of a round about sensors
unfoldable pub sensor_round : Trains → ℕ → SensorInput → Trains × List TrainReply
unfolding handle_sensors flush_sensors
sensor_round s client (reading readings time) =
    flush_sensors ((handle_sensors s client readings time).0)
sensor_round s client (asks task) = flush_sensors (record s { sensor_waiting = some task })

-- The rounds for a list of inputs, with the events that are sent. The readings come from `client`.
unfoldable pub feed : Trains → ℕ → List SensorInput → Trains × List TrainReply
unfolding sensor_round
feed s client [] = (s, [])
feed s client (input ∷ rest) =
    let now = sensor_round s client input in
    let later = feed (now.0) client rest in (later.0, now.1 ++ later.1)

-- Sensor `i` is reported in one of the events sent.
abbrev pub reported : ℕ → List TrainReply → Bool
reported i [] = false
reported i (run_cmd w a b c d ∷ rest) = reported i rest
reported i (run_sensor w ∷ rest) = reported i rest
reported i (run_nothing w ∷ rest) = reported i rest
reported i (ack w ∷ rest) = reported i rest
reported i (notify w event ∷ rest) = bit event.sensors i || reported i rest

abbrev pub column : ℕ → List SensorInput → List Bool
column i [] = []
column i (reading readings time ∷ rest) = bit readings i ∷ column i rest
column i (asks task ∷ rest) = column i rest

-- each reading has a bit for each of the 80 sensors
abbrev pub Widths : List SensorInput → Type 0
Widths [] = Unit
Widths (reading readings time ∷ rest) = (length readings ≡ 80) × Widths rest
Widths (asks task ∷ rest) = Widths rest

bit-add_edges :
    (es rs os : List Bool) (i : ℕ)
    → length rs ≡ length es
    → length os ≡ length es
    → bit (add_edges es rs os) i ≡ (bit es i || bit rs i && not (bit os i))
unfolding add_edges
bit-add_edges [] [] os i hr ho = refl
bit-add_edges [] (r ∷ rs) os i hr ho = absurd (omega arith)
bit-add_edges (e ∷ es) [] os i hr ho = absurd (omega arith)
bit-add_edges (e ∷ es) (r ∷ rs) [] i hr ho = absurd (omega arith)
bit-add_edges (e ∷ es) (r ∷ rs) (o ∷ os) zero hr ho = refl
bit-add_edges (e ∷ es) (r ∷ rs) (o ∷ os) (suc i) hr ho =
    bit-add_edges es rs os i (omega arith) (omega arith)

length-add_edges : (es rs os : List Bool) → length (add_edges es rs os) ≡ length es
unfolding add_edges
length-add_edges [] rs os = refl
length-add_edges (e ∷ es) [] os = refl
length-add_edges (e ∷ es) (r ∷ rs) [] = refl
length-add_edges (e ∷ es) (r ∷ rs) (o ∷ os) = ap suc (length-add_edges es rs os)

-- an event only gains bits
any_set-add_edges :
    (es rs os : List Bool)
    → (any_set es || any_set (add_edges es rs os)) ≡ any_set (add_edges es rs os)
unfolding add_edges any_set
any_set-add_edges [] rs os = refl
any_set-add_edges (e ∷ es) [] os = ground arith
any_set-add_edges (e ∷ es) (r ∷ rs) [] = ground arith
any_set-add_edges (e ∷ es) (r ∷ rs) (o ∷ os) = ground (arith, any_set-add_edges es rs os)

or_assoc : (a b c : Bool) → (a || b || c) ≡ (a || (b || c))
or_assoc a b c = ground arith

any_set_iff : (es : List Bool) → (any_set es ≡ true) ↔ ((i : ℕ) × (bit es i ≡ true))
unfolding any_set
any_set_iff [] = (λ e. ground arith, λ (i, e). ground arith)
any_set_iff (true ∷ es) = (λ e. (zero, refl), λ h. refl)
any_set_iff (false ∷ es) = (
  λ e. let (i, set) = (any_set_iff es).0 e in (suc i, set),
  λ (i, e).
      elim i as (λ i. bit (false ∷ es) i ≡ true → any_set es ≡ true) [
        | zero ↦ λ h. ground arith
        | suc j ↦ λ h. (any_set_iff es).1 (j, h)
      ]
        e,
)

-- The readings and the event have a bit for each of the 80 sensors, and `sensor_dirty` tells whether the
-- event reports one.
pub record IsCurrent (s : Trains) : Type 0 where
  pub event : length s.event.sensors ≡ 80
  pub last : length s.sensors ≡ 80
  pub dirty : (s.sensor_dirty ≡ true) ↔ ((i : ℕ) × (bit s.event.sensors i ≡ true))

-- No task waits while a sensor is reported in the event.
abbrev pub IsFlushed : Trains → Type 0
IsFlushed s = (s.sensor_waiting ≡ none) ⊎ ((i : ℕ) → bit s.event.sensors i ≡ false)

handle_sensors-IsCurrent :
    (s : Trains) (client : ℕ) (readings : List Bool) (time : ℕ)
    → IsCurrent s
    → length readings ≡ 80
    → IsCurrent ((handle_sensors s client readings time).0)
unfolding handle_sensors
handle_sensors-IsCurrent s client readings time c size =
    let edges = add_edges s.event.sensors readings s.sensors in
    record {
      event = length-add_edges s.event.sensors readings s.sensors ∙ c.event;
      last = size;
      dirty = (
        λ e. (any_set_iff edges).0 (elim (Bool-cases s.sensor_dirty) [
          | inl dirty ↦
              let old = (any_set_iff s.event.sensors).1 (c.dirty.0 dirty) in
              ground (arith, any_set-add_edges s.event.sensors readings s.sensors)
          | inr clean ↦ ground arith
        ]),
        λ h. let found = (any_set_iff edges).1 h in ground arith,
      );
    }

-- what `flush_sensors` does
abbrev Flushed : Trains → Trains × List TrainReply → Type 0
Flushed s (s', sent) =
    IsCurrent s'
    × IsFlushed s'
    × (s'.sensors ≡ s.sensors)
    × ((i : ℕ) → (reported i sent || bit s'.event.sensors i) ≡ bit s.event.sensors i)

flush_sensors-Flushed :
    (s : Trains) (waiting : Option ℕ)
    → s.sensor_waiting ≡ waiting
    → IsCurrent s
    → Flushed s (flush_sensors s)
unfolding flush_sensors
flush_sensors-Flushed s none e c =
    rw e (record { event = c.event; last = c.last; dirty = c.dirty }, inl refl, refl, λ i. refl)
flush_sensors-Flushed s (some task) e c = elim (Bool-cases s.sensor_dirty) [
  | inl dirty ↦
      rw (e, dirty)
        (
          record {
            event = length-replicate 80 false;
            last = c.last;
            dirty = (
              λ h. ground arith,
              λ (i, h).
                  let none_set : bit (replicate 80 false) i ≡ false = get_or-replicate false 80 i in
                  ground arith,
            );
          },
          inl refl,
          refl,
          λ i. rw (get_or-replicate false 80 i) (ground arith),
        )
  | inr clean ↦
      rw (e, clean)
        (
          record {
            event = c.event;
            last = c.last;
            dirty = (λ h. ground arith, λ h. let dirty = c.dirty.1 h in ground arith);
          },
          inr (λ i. elim (Bool-cases (bit s.event.sensors i)) [
            | inl set ↦ let dirty = c.dirty.1 (i, set) in ground arith
            | inr unset ↦ unset
          ]),
          refl,
          λ i. refl,
        )
]

reported-append :
    (i : ℕ) (a b : List TrainReply) → reported i (a ++ b) ≡ (reported i a || reported i b)
reported-append i [] b = refl
reported-append i (run_cmd w x y z d ∷ a) b = reported-append i a b
reported-append i (run_sensor w ∷ a) b = reported-append i a b
reported-append i (run_nothing w ∷ a) b = reported-append i a b
reported-append i (ack w ∷ a) b = reported-append i a b
reported-append i (notify w event ∷ a) b =
    ap (◌||◌ (bit event.sensors i)) (reported-append i a b)
    ∙ sym (or_assoc (bit event.sensors i) (reported i a) (reported i b))

-- a flush, and the rounds behind it
passed_on :
    (i : ℕ) (sent more : List TrainReply) (left mid old risen : Bool)
    → (reported i more || left) ≡ (mid || risen)
    → (reported i sent || mid) ≡ old
    → (reported i (sent ++ more) || left) ≡ (old || risen)
passed_on i sent more left mid old risen later now =
    let both = reported-append i sent more in ground arith

-- Over any sequence of readings, and of tasks that ask for the event, a sensor is in the event at the
-- end or in one that has been sent exactly if it was in the event at the start or has risen in the
-- sequence. Then `sensor_dirty` tells whether the event has a sensor, and no task waits while it has one.
pub feed-rose :
    (s : Trains) (client : ℕ) (inputs : List SensorInput)
    → IsCurrent s
    → IsFlushed s
    → Widths inputs
    → let (s', sent) = feed s client inputs in
      IsCurrent s'
      × IsFlushed s'
      × ((i : ℕ)
          → (reported i sent || bit s'.event.sensors i)
            ≡ (bit s.event.sensors i || rose (bit s.sensors i) (column i inputs)))
unfolding feed rose
feed-rose s client [] c f w = (c, f, λ i. ground arith)
feed-rose s client (reading r time ∷ rest) c f (size, w) =
    let heard = (handle_sensors s client r time).0 in
    let (c1, f1, last, kept) =
      flush_sensors-Flushed heard _ refl (handle_sensors-IsCurrent s client r time c size) in
    let (c2, f2, bits) = feed-rose ((flush_sensors heard).0) client rest c1 f1 w in
    (
      c2,
      f2,
      λ i.
          passed_on i ((flush_sensors heard).1) _ _ _ _ _ (bits i) (kept i)
          ∙ rw last (
              ap (λ b. b || rose (bit r i) (column i rest))
                (bit-add_edges s.event.sensors r s.sensors i (omega (arith, size, c.event))
                  (omega (arith, c.last, c.event)))
              ∙ or_assoc (bit s.event.sensors i) (bit r i && not (bit s.sensors i))
                  (rose (bit r i) (column i rest))),
    )
feed-rose s client (asks task ∷ rest) c f w =
    let asked = record s { sensor_waiting = some task } in
    let (c1, f1, last, kept) =
      flush_sensors-Flushed asked _ refl
        (record { event = c.event; last = c.last; dirty = c.dirty }) in
    let (c2, f2, bits) = feed-rose ((flush_sensors asked).0) client rest c1 f1 w in
    (c2, f2, λ i. passed_on i ((flush_sensors asked).1) _ _ _ _ _ (bits i) (kept i) ∙ rw last refl)
