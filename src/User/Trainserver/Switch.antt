-- ===== src/User/Trainserver/Switch.antt =====
-- src/user/trainserver.c: the commands that a request for a switch puts in the heap.
use the_polling_express.Base.{
  ℕ, ◌+◌, ◌-◌, ◌≤◌, ◌<◌, ◌≡◌, Bool, true, false, none, some, [], arith, leb, ◌&&◌, Bool-cases, inl,
  inr,
}
use the_polling_express.Base.Outcome.{EndsIn, EndsIn-bind}
use the_polling_express.Common.Heap.{no_child}
use the_polling_express.User.Trainserver.{Trains, schedule_branch}
use the_polling_express.User.Trainserver.Step.{handle_switch, other_way, partner}
use the_polling_express.User.Trainserver.Queue.{is_switch, IsValid}
use the_polling_express.User.Trainserver.Plan.{
  IsPlanned, nothing-IsPlanned, plan_next, plan_next_branch, twin, switch_plan,
}

abbrev is_paired : ℕ → Bool
is_paired sw = leb 153 sw && leb sw 156

partner-twin : (sw : ℕ) → is_paired sw ≡ true → partner sw ≡ some (twin sw)
unfolding partner
partner-twin sw h = ground arith

partner-none : (sw : ℕ) → is_paired sw ≡ false → partner sw ≡ none
unfolding partner
partner-none sw h = ground arith

twin-is_switch : (sw : ℕ) → is_paired sw ≡ true → is_switch (twin sw) ≡ true
unfolding is_switch
twin-is_switch sw h = ground arith

other_way-sub : (state : ℕ) → other_way state ≡ 1 - state
unfolding other_way
other_way-sub state = ground arith

-- In a valid state with three nodes free, at a time of less than 0x00FFFFFF - 40 ticks, a request for a
-- switch that an event has an entry for puts these commands in the heap and nothing else: the switch, 20 ticks later the opposite for the switch that lies in one
-- with it, if there is one, and 20 ticks behind them the end of the current.
pub handle_switch-IsPlanned :
    (s : Trains) (sw state time : ℕ)
    → IsValid s
    → 3 ≤ s.free
    → time + 40 < no_child
    → is_switch sw ≡ true
    → EndsIn (IsPlanned s (switch_plan s sw state time)) (handle_switch s sw state time)
unfolding handle_switch
handle_switch-IsPlanned s sw state time valid room soon known =
    let first =
      plan_next_branch s s [] time sw state (nothing-IsPlanned s valid) (omega arith) (omega arith)
        known in
    elim (Bool-cases (is_paired sw)) [
      | inl paired ↦
          let late : time + 20 + 20 ≡ time + 40 = omega arith in
          rw (paired, partner-twin sw paired, other_way-sub state, late)
            (EndsIn-bind _ _ (schedule_branch s time sw state) _
              (λ s1 p1.
                EndsIn-bind _ _ (schedule_branch s1 (time + 20) (twin sw) (1 - state)) _
                  (λ s2 p2. plan_next s s2 _ (time + 40) 32 0 1 p2 (omega arith) soon)
                  (plan_next_branch s s1 _ (time + 20) (twin sw) (1 - state) p1 (omega arith)
                    (omega arith) (twin-is_switch sw paired)))
              first)
      | inr single ↦
          rw (single, partner-none sw single)
            (EndsIn-bind _ _ (schedule_branch s time sw state) _
              (λ s1 p1. plan_next s s1 _ (time + 20) 32 0 1 p1 (omega arith) (omega arith)) first)
    ]
