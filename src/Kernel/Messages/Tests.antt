-- ===== src/Kernel/Messages/Tests.antt =====
-- Runs of Send and Receive of src/main.c on three tasks: `idle`, a server and a client.
use the_polling_express.Base.{ℕ, ◌≡◌, refl, Option, none, some, [], ◌∷◌, arith, replicate, ◌↔◌}
use the_polling_express.Base.Int.{pos, negsuc}
use the_polling_express.Base.Outcome.{ok, out_of_bounds}
use the_polling_express.Kernel.Task.{
  Tcb, TcbState, Context, Call, ready, send, receive, reply, send_call, receive_call, no_tcb,
  init_user_task, max_num_tasks,
}
use the_polling_express.Kernel.Scheduler.{Scheduler, block}
use the_polling_express.Kernel.Scheduler.Queue.{entries}
use the_polling_express.Kernel.Messages.{syscall_send}
use the_polling_express.Kernel.Messages.Chain.{IsWaiting}
use the_polling_express.Kernel.Messages.Send.{syscall_send-IsWaiting}
use the_polling_express.Kernel.Messages.Bounds.{syscall_send-out_of_bounds}

abbrev calling : Call → Context
calling call = record (init_user_task 1) { call = call }

abbrev idle : TcbState → Tcb
idle state = record no_tcb {
  priority = negsuc 98;
  state = state;
  context = calling (send_call (pos 1) [] 0);
}

abbrev server : TcbState → Option ℕ → Option ℕ → Tcb
server state first last = record no_tcb {
  tid = 1;
  priority = pos 5;
  state = state;
  context = calling (receive_call 2);
  want_send = first;
  want_send_end = last;
}

abbrev client : TcbState → Option ℕ → Tcb
client state next = record no_tcb {
  next = next;
  tid = 2;
  priority = pos 3;
  state = state;
  context = calling (send_call (pos 1) (7 ∷ 8 ∷ 9 ∷ []) 4);
}

-- with `idle` in the queue if `count` is 1
abbrev hall : Tcb → Tcb → Tcb → ℕ → Scheduler
hall a b c count = record {
  blocks = a ∷ b ∷ c ∷ [];
  free_tcb = none;
  capacity = 3;
  ready_queue = 0 ∷ 0 ∷ 0 ∷ [];
  count = count;
}

-- the server waits for a message
abbrev listening : Scheduler
listening = hall (idle ready) (server receive none none) (client ready none) 1

-- the server is busy, and `idle` waits to send to it
abbrev busy : Scheduler
busy = hall (idle send) (server ready (some 0) (some 0)) (client ready none) 0

-- both wait to send to the server, the client first
abbrev crowded : Scheduler
crowded = hall (idle send) (server ready (some 2) (some 0)) (client send (some 0)) 0

busy-IsWaiting : IsWaiting busy.blocks 1 (0 ∷ [])
busy-IsWaiting = record {
  chain = (refl, refl);
  ending = refl;
  inside = (omega arith, tt);
  distinct = (tt, tt);
}

syscall_send-IsWaiting_example :
    (s' : Scheduler) × (syscall_send busy 70 2 (pos 1) ≡ ok s')
    × IsWaiting s'.blocks 1 (0 ∷ 2 ∷ [])
    × ((block s'.blocks 2).state ≡ send)
    × (entries s' ≡ entries busy)
syscall_send-IsWaiting_example =
    syscall_send-IsWaiting busy 70 2 1 (0 ∷ []) (omega arith) (omega arith) (omega arith) refl refl
      (omega arith, tt) busy-IsWaiting

-- all the descriptors of the kernel
abbrev full : Scheduler
full = record {
  blocks = replicate 125 no_tcb;
  free_tcb = none;
  capacity = 125;
  ready_queue = replicate 125 0;
  count = 0;
}

syscall_send-out_of_bounds_example :
    (syscall_send full 70 2 (pos max_num_tasks) ≡ out_of_bounds) ↔ (max_num_tasks ≡ max_num_tasks)
syscall_send-out_of_bounds_example = syscall_send-out_of_bounds full 70 2 max_num_tasks refl

-- the client waits for the reply of the server
abbrev serving : Scheduler
serving = hall (idle send) (server ready none none) (client reply none) 0
