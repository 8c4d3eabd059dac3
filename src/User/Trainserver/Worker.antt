-- ===== src/User/Trainserver/Worker.antt =====
-- src/user/trainserver.c: what the worker that owns the serial line is told to do.
use mathlib.Core.List.{Perm}
use the_polling_express.Base.{
  ℕ, ◌+◌, ◌≤◌, ◌<◌, ◌≡◌, ◌⊎◌, refl, Bool, true, false, Option, none, some, List, [], ◌∷◌, arith,
  leb, ltb, ◌&&◌, Bool-cases, inl, inr, get_or, ◌==◌,
}
use the_polling_express.Base.Outcome.{ok, EndsIn}
use the_polling_express.Common.Heap.{heap_peek}
use the_polling_express.Common.Heap.Pop.{heap_peek-least}
use the_polling_express.Common.Heap.Keys.{
  Holds, Holds-first, Holds-shrunk, heap_pop-IsQueue, first-least, Holds-empty,
}
use the_polling_express.User.Trainserver.{TrainTask, TrainEvent, Trains, blank, task_time}
use the_polling_express.User.Trainserver.Step.{
  TrainReply, run_cmd, run_sensor, run_nothing, note_branch, send_top, ask_sensors, handle_worker,
}
use the_polling_express.User.Trainserver.Queue.{pending, is_switch, has_place, IsPlaced, IsValid}

note_branch-known :
    (s : Trains) (top : TrainTask)
    → IsPlaced top
    → (event : TrainEvent) × (dirty : Bool) × (note_branch s top
        ≡ ok (record s { event = event; branch_dirty = dirty }))
unfolding note_branch has_place is_switch
note_branch-known s top place = go top.branch place
  where
    go :
        (branch : Option ℕ)
        → has_place branch ≡ true
        → (event : TrainEvent) × (dirty : Bool) × (note_branch s (record top { branch = branch })
            ≡ ok (record s { event = event; branch_dirty = dirty }))
    go none place = (_, _, refl)
    go (some sw) place = elim (Bool-cases (ltb sw 20)) [
      | inl low ↦ rw low (_, _, refl)
      | inr high ↦
          let paired : (leb 153 sw && leb sw 156) ≡ true = rw high at place in
          rw (high, paired) (_, _, refl)
    ]

-- The worker is told to send a command that was due, ...
abbrev pub Sends : Trains → ℕ → ℕ → Trains × List TrainReply → Type 0
Sends s client time (s', replies) =
    (top : TrainTask) × Perm (top ∷ pending s') (pending s)
    × (top.time ≤ time)
    × Holds blank task_time (λ t. top.time ≤ t.time) s.heap
    × (replies ≡ run_cmd client top.a top.b top.len top.reqid ∷ [])

-- ... or, with no command due, to ask for the sensors or to wait.
abbrev pub Rests : Bool → Trains → ℕ → ℕ → Trains × List TrainReply → Type 0
Rests track_known s client time (s', replies) =
    (s' ≡ s)
    × Holds blank task_time (λ t. time < t.time) s.heap
    × ((replies ≡ run_nothing client ∷ [])
        ⊎ ((replies ≡ run_sensor client ∷ [])
            × (track_known ≡ true)
            × Holds blank task_time (λ t. time + 7 < t.time) s.heap))

abbrev pub Answers : Bool → Trains → ℕ → ℕ → Trains × List TrainReply → Type 0
Answers track_known s client time r =
    IsValid (r.0) × (Sends s client time r ⊎ Rests track_known s client time r)

send_top-Sends :
    (track_known : Bool) (s : Trains) (client time : ℕ)
    → IsValid s
    → 0 < s.heap.len
    → task_time (get_or s.heap.items 0 blank) ≤ time
    → EndsIn (Answers track_known s client time) (send_top s client (get_or s.heap.items 0 blank))
unfolding send_top
send_top-Sends track_known s client time v pos due =
    let top = get_or s.heap.items 0 blank in
    let place = Holds-first blank task_time IsPlaced s.heap v.queue.valid pos v.placed in
    let (event, dirty, noted) = note_branch-known s top place in
    let (h', e, queue, perm, less, size) = heap_pop-IsQueue blank task_time s.heap v.queue pos in
    rw (noted, e)
      (
        record {
          queue = queue;
          nodes = omega (arith, v.nodes, less);
          storage = omega (arith, size, v.storage);
          placed = Holds-shrunk blank task_time IsPlaced s.heap h' top perm v.placed;
        },
        inl (top, perm, due, first-least blank task_time s.heap v.queue.valid pos, refl),
      )

peek-empty : (s : Trains) → s.heap.len ≡ 0 → heap_peek s.heap blank ≡ none
unfolding heap_peek
peek-empty s empty = ground arith

asked :
    (track_known idle : Bool) (client : ℕ) (P : Type 0)
    → (idle ≡ true → P)
    → (ask_sensors track_known idle client ≡ run_nothing client ∷ [])
      ⊎ ((ask_sensors track_known idle client ≡ run_sensor client ∷ []) × (track_known ≡ true) × P)
unfolding ask_sensors
asked true true client P h = inr (refl, refl, h refl)
asked false true client P h = inl refl
asked track_known false client P h = inl refl

handle_worker-idle :
    (track_known : Bool) (s : Trains) (client time : ℕ)
    → IsValid s
    → s.heap.len ≡ 0
    → EndsIn (Answers track_known s client time) (handle_worker track_known s client time)
unfolding handle_worker
handle_worker-idle track_known s client time v empty =
    let none_left = λ (P : TrainTask → Type 0). Holds-empty blank task_time P s.heap empty in
    rw (peek-empty s empty, handle_worker, EndsIn)
      (v, inr (refl, none_left _, asked track_known true client _ (λ u. none_left _)))

handle_worker-busy :
    (track_known : Bool) (s : Trains) (client time : ℕ)
    → IsValid s
    → 0 < s.heap.len
    → EndsIn (Answers track_known s client time) (handle_worker track_known s client time)
unfolding handle_worker
handle_worker-busy track_known s client time v pos =
    let busy = (heap_peek-least blank task_time s.heap v.queue.valid pos).0 in
    let top = get_or s.heap.items 0 blank in
    let least = first-least blank task_time s.heap v.queue.valid pos in
    elim (Bool-cases (leb top.time time)) [
      | inl due ↦
          rw (busy, due, handle_worker, EndsIn)
            (send_top-Sends track_known s client time v pos (ground arith))
      | inr later ↦
          let late : time < top.time = ground arith in
          rw (busy, later, handle_worker, EndsIn)
            (
              v,
              inr (
                refl,
                λ x m. omega (arith, least x m),
                asked track_known (ltb (time + 7) top.time) client _
                    (λ u x m. ground (arith, least x m)),
              ),
            )
    ]

-- In a valid state, the server answers the worker, and the state stays valid. If a command is due,
-- it tells the worker to send one that no other command is due before, and takes this one from the
-- heap. If not, the heap stays as it is, and the worker is told to ask for the sensors only if the
-- track is known and no command is due for 7 ticks more.
pub handle_worker-Answers :
    (track_known : Bool) (s : Trains) (client time : ℕ)
    → IsValid s
    → EndsIn (Answers track_known s client time) (handle_worker track_known s client time)
handle_worker-Answers track_known s client time v = elim (Bool-cases (s.heap.len == 0)) [
  | inl empty ↦ handle_worker-idle track_known s client time v (ground arith)
  | inr busy ↦ handle_worker-busy track_known s client time v (ground arith)
]
