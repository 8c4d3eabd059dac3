-- ===== src/User/Trainserver/Plan.antt =====
-- src/user/trainserver.c: the commands that a request for a train or a switch puts in the heap.
use mathlib.Core.List.{Perm}
use mathlib.Core.List.Perm
use the_polling_express.Base.{
  ℕ, suc, ◌+◌, ◌-◌, ◌%◌, ◌≤◌, ◌<◌, ◌≡◌, refl, true, List, [], ◌∷◌, ◌++◌, length, arith, get_or, leb,
  if◌then◌else◌, ◌&&◌, ◌==◌, zero,
}
use the_polling_express.Base.Outcome.{ok, EndsIn, EndsIn-map, EndsIn-bind}
use the_polling_express.Common.Heap.{no_child}
use the_polling_express.User.Virtual.{v_p_train_num, supported_trains, max_num_trains}
use the_polling_express.User.Trainserver.{TrainTask, Trains, schedule, schedule_branch, with_light}
use the_polling_express.User.Trainserver.Step.{handle_speed, handle_reverse}
use the_polling_express.User.Trainserver.Queue.{
  pending, is_switch, IsValid, IsAdded, command, switch_command, schedule-IsAdded,
  schedule_branch-IsAdded,
}

-- What a request leaves: its commands in the heap with those of before, each in a node.
pub record IsPlanned (s : Trains) (commands : List TrainTask) (s' : Trains) : Type 0 where
  pub valid : IsValid s'
  pub added : Perm (pending s') (commands ++ pending s)
  pub free : s'.free + length commands ≡ s.free
  pub reqid : s'.reqid ≡ s.reqid + length commands

pub nothing-IsPlanned : (s : Trains) → IsValid s → IsPlanned s [] s
nothing-IsPlanned s v = record {
  valid = v;
  added = Perm.refl (pending s);
  free = omega arith;
  reqid = omega arith;
}

one_more :
    (s s1 s2 : Trains) (commands : List TrainTask) (task : TrainTask)
    → IsPlanned s commands s1
    → IsAdded task s1 s2
    → IsPlanned s (task ∷ commands) s2
one_more s s1 s2 commands task p a = record {
  valid = a.valid;
  added = Perm.trans a.added (Perm.cons task p.added);
  free = omega (arith, a.free, p.free);
  reqid = omega (arith, a.reqid, p.reqid);
}

-- one more command behind those that a request has put in the heap
pub plan_next :
    (s s1 : Trains) (commands : List TrainTask) (time a b len : ℕ)
    → IsPlanned s commands s1
    → length commands < s.free
    → time < no_child
    → EndsIn
        (IsPlanned s (command time a b len (s.reqid + length commands) ∷ commands))
        (schedule s1 time a b len)
plan_next s s1 commands time a b len p room soon = rw (← p.reqid) (
    EndsIn-map _ _ (schedule s1 time a b len) (λ s2 added. one_more s s1 s2 commands _ p added)
      (schedule-IsAdded s1 time a b len p.valid (omega (arith, p.free)) soon))

pub plan_next_branch :
    (s s1 : Trains) (commands : List TrainTask) (time sw state : ℕ)
    → IsPlanned s commands s1
    → length commands < s.free
    → time < no_child
    → is_switch sw ≡ true
    → EndsIn
        (IsPlanned s (switch_command time sw state (s.reqid + length commands) ∷ commands))
        (schedule_branch s1 time sw state)
plan_next_branch s s1 commands time sw state p room soon known = rw (← p.reqid) (
    EndsIn-map _ _ (schedule_branch s1 time sw state)
      (λ s2 added. one_more s s1 s2 commands _ p added)
      (schedule_branch-IsAdded s1 time sw state p.valid (omega (arith, p.free)) soon known))

known_train : (v : ℕ) → v < max_num_trains → v_p_train_num v ≡ ok (get_or supported_trains v 0)
unfolding v_p_train_num
known_train zero lt = refl
known_train (suc zero) lt = refl
known_train (suc (suc zero)) lt = refl
known_train (suc (suc (suc zero))) lt = refl
known_train (suc (suc (suc (suc zero)))) lt = refl
known_train (suc (suc (suc (suc (suc zero))))) lt = refl
known_train (suc (suc (suc (suc (suc (suc v)))))) lt = absurd (omega arith)

-- the physical number of a train
abbrev pub number : ℕ → ℕ
number v = get_or supported_trains v 0

-- The commands of a request, the last one first.
abbrev pub speed_plan : Trains → ℕ → ℕ → ℕ → List TrainTask
speed_plan s v speed time = command time (with_light speed) (number v) 2 (s.reqid + 0) ∷ []

abbrev pub reverse_plan : Trains → ℕ → ℕ → ℕ → List TrainTask
reverse_plan s v speed time =
    command (time + 510) (with_light speed) (number v) 2 (s.reqid + 2)
    ∷ command (time + 500) 15 (number v) 2 (s.reqid + 1)
    ∷ command time 16 (number v) 2 (s.reqid + 0)
    ∷ []

-- 153 and 154 lie in one, and so do 155 and 156.
abbrev pub twin : ℕ → ℕ
twin sw = if sw % 2 == 1 then sw + 1 else sw - 1

abbrev pub switch_plan : Trains → ℕ → ℕ → ℕ → List TrainTask
switch_plan s sw state time =
    if leb 153 sw && leb sw 156
    then command (time + 40) 32 0 1 (s.reqid + 2)
      ∷ switch_command (time + 20) (twin sw) (1 - state) (s.reqid + 1)
      ∷ switch_command time sw state (s.reqid + 0)
      ∷ []
    else command (time + 20) 32 0 1 (s.reqid + 1) ∷ switch_command time sw state (s.reqid + 0) ∷ []

pub handle_speed-IsPlanned :
    (s : Trains) (v speed time : ℕ)
    → IsValid s
    → v < max_num_trains
    → 0 < s.free
    → time < no_child
    → EndsIn (IsPlanned s (speed_plan s v speed time)) (handle_speed s v speed time)
unfolding handle_speed
handle_speed-IsPlanned s v speed time valid known room soon =
    rw (known_train v known)
      (plan_next s s [] time (with_light speed) (number v) 2 (nothing-IsPlanned s valid) room soon)

-- With three nodes free, a reversal of a supported train puts three commands in the heap and nothing
-- else: stop, reverse after 500 ticks, and the speed after 510.
pub handle_reverse-IsPlanned :
    (s : Trains) (v speed time : ℕ)
    → IsValid s
    → v < max_num_trains
    → 3 ≤ s.free
    → time + 510 < no_child
    → EndsIn (IsPlanned s (reverse_plan s v speed time)) (handle_reverse s v speed time)
unfolding handle_reverse
handle_reverse-IsPlanned s v speed time valid known room soon = rw (known_train v known) (
    EndsIn-bind _ _ (schedule s time 16 (number v) 2) _
      (λ s1 p1.
        EndsIn-bind _ _ (schedule s1 (time + 500) 15 (number v) 2) _
          (λ s2 p2.
            plan_next s s2 _ (time + 510) (with_light speed) (number v) 2 p2 (omega arith) soon)
          (plan_next s s1 _ (time + 500) 15 (number v) 2 p1 (omega arith) (omega arith)))
      (plan_next s s [] time 16 (number v) 2 (nothing-IsPlanned s valid) (omega arith)
        (omega arith)))
