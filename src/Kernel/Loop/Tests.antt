-- ===== src/Kernel/Loop/Tests.antt =====
-- The loop of src/main.c at concrete inputs.
use the_polling_express.Base.{
  some, true, arith, ℕ, ◌≡◌, refl, false, [], ◌∷◌, replicate, ◌==◌, if◌then◌else◌,
}
use the_polling_express.Base.Int.{pos, negsuc}
use the_polling_express.Base.Outcome.{Outcome, ok, out_of_fuel, ◌>>=◌, EndsIn, IfEnds}
use the_polling_express.Kernel.Task.{
  ready, Tcb, TcbState, zombie, my_tid, exit, await_event, Context, no_tcb,
}
use the_polling_express.Kernel.Scheduler.{block}
use the_polling_express.Kernel.Scheduler.Create.{scheduler_init, scheduler_add}
use the_polling_express.Kernel.Events.{events_start}
use the_polling_express.Kernel.Events.Irq.{UartStatus}
use the_polling_express.Kernel.Loop.{Kernel, Devices, kernel_round, kernel_loop}
use the_polling_express.Kernel.Events.Home.{IsSettled, IsRaised1, IsRaised2}
use the_polling_express.Kernel.Events.Served.{start-IsSettled}
use the_polling_express.Kernel.Loop.Settled.{kernel_round-Settled}

abbrev blank : Tcb
blank = record no_tcb { task_name = replicate 30 0 }

abbrev silent : UartStatus
silent = record {
  here = false;
  ris = false;
  rtis = false;
  tis = false;
  mis = false;
  dcts = false;
  cts = false;
}

abbrev quiet : Devices
quiet = record {
  dropped = false;
  now = 100;
  later = 90;
  times = λ n. 95;
  timer = false;
  status2 = silent;
  status1 = silent;
  idle = pos 0;
}

-- the idle task and the first task of the system
abbrev booted : Outcome Kernel
booted =
    let empty = scheduler_init 3 (blank ∷ blank ∷ blank ∷ []) (0 ∷ 0 ∷ 0 ∷ []) in
    do
      (s, _) ← scheduler_add empty 120 (negsuc 98) 1 (negsuc 0) (105 ∷ [])
      (s', _) ← scheduler_add s 110 (pos 100) 2 (negsuc 0) (107 ∷ [])
      ok (record { scheduler = s'; events = events_start })

-- A task asks for its id, and then exits, or waits for the tick of the timer.
abbrev asks : ℕ → Context → Context
asks tid context = elim context.r0 [
  | pos r ↦ if r == 0 then record context { call = my_tid } else record context { call = exit }
  | negsuc r ↦ context
]

abbrev waits : ℕ → Context → Context
waits tid context = record context { call = await_event 1 }

-- what is left: the number of tasks that are ready, and the state of the first task
abbrev left : Outcome Kernel → Outcome (ℕ × TcbState)
left r = r >>= λ k. ok (k.scheduler.count, (block k.scheduler.blocks 1).state)

runs_to_the_end : left (booted >>= λ k. kernel_loop asks k (quiet ∷ quiet ∷ [])) ≡ ok (1, zombie)
unfolding scheduler_init scheduler_add events_start kernel_loop
runs_to_the_end = refl

goes_on_for_a_waiting_task : left (booted >>= λ k. kernel_loop waits k (quiet ∷ [])) ≡ out_of_fuel
unfolding scheduler_init scheduler_add events_start kernel_loop
goes_on_for_a_waiting_task = refl

-- one task that is ready, and the tick of the timer comes
abbrev one_ready : Kernel
one_ready = record {
  scheduler = record {
    blocks = record blank { state = ready } ∷ blank ∷ blank ∷ [];
    free_tcb = some 1;
    capacity = 3;
    ready_queue = 0 ∷ 0 ∷ 0 ∷ [];
    count = 1;
  };
  events = events_start;
}

abbrev ticks : Devices
ticks = record quiet { timer = true }

silent-IsRaised : IsRaised2 one_ready.events silent × IsRaised1 one_ready.events silent
silent-IsRaised = (
  (λ h. ground (arith, h), λ h. ground (arith, h), λ h. ground (arith, h)),
  (λ h. ground (arith, h), λ h. ground (arith, h), λ h. ground (arith, h)),
)

waits_for_tick :
    EndsIn
      (λ (more, k'). (more ≡ true) × (k'.events.at_timer_tick ≡ some 0))
      (kernel_round waits one_ready ticks)
unfolding events_start kernel_round
waits_for_tick = (refl, refl)

kernel_round-Settled_example :
    IfEnds (λ (_, k'). IsSettled k'.events) (kernel_round waits one_ready ticks)
kernel_round-Settled_example =
    kernel_round-Settled waits one_ready ticks start-IsSettled silent-IsRaised.0 silent-IsRaised.1
