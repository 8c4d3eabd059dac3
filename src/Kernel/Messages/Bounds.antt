-- ===== src/Kernel/Messages/Bounds.antt =====
-- Which task ids lead Send of src/main.c outside the array of descriptors.
use the_polling_express.Base.{
  ℕ, ◌≡◌, ◌≢◌, ◌↔◌, refl, Bool-cases, Option, none, some, true, false, List, arith, inl, inr,
  length, ltb, set, ◌+◌, ◌==◌,
}
use the_polling_express.Base.Int.{ℤ, pos}
use the_polling_express.Base.Outcome.{ok, out_of_bounds, finished, ◌>>=◌}
use the_polling_express.Kernel.Task.{ready, reply, set_return, receive, zombie, max_num_tasks}
use the_polling_express.Kernel.Scheduler.{Scheduler, block, rise_loop, add_to_ready_queue}
use the_polling_express.Kernel.Scheduler.Queue.{stamped}
use the_polling_express.Kernel.Messages.{
  is_in, modify, einvalid_tid, delivered, return_to, handle_send, syscall_send,
}

loop-inside :
    (r : Option (List ℕ)) (f : List ℕ → Scheduler)
    → (finished r >>= (λ queue. ok (f queue))) ≢ out_of_bounds
loop-inside none f = ground arith
loop-inside (some queue) f = ground arith

add_to_ready_queue-inside : (s : Scheduler) (now t : ℕ) → add_to_ready_queue s now t ≢ out_of_bounds
unfolding add_to_ready_queue
add_to_ready_queue-inside s now t = elim (Bool-cases (ltb s.count s.capacity)) [
  | inl space ↦ rw space (
      loop-inside (rise_loop (s.count + 1) (stamped s now t) (set s.ready_queue s.count t) s.count)
        (λ queue. record s { blocks = stamped s now t; ready_queue = queue; count = s.count + 1 }))
  | inr full ↦ rw full (ground arith)
]

return_to-inside :
    (s : Scheduler) (now cur : ℕ) (value : ℤ) → return_to s now cur value ≢ out_of_bounds
return_to-inside s now cur value =
    let blocks = modify s.blocks cur (λ t. record t { context = set_return t.context value }) in
    add_to_ready_queue-inside (record s { blocks = blocks }) now cur

handle_send-inside : (s : Scheduler) (now src dst : ℕ) → handle_send s now src dst ≢ out_of_bounds
unfolding handle_send
handle_send-inside s now src dst =
    let sender = modify s.blocks src (λ t. record t { state = reply }) in
    let receiver = modify sender dst (λ t. record t { state = ready }) in
    let blocks = modify receiver dst (delivered (block receiver src)) in
    add_to_ready_queue-inside (record s { blocks = blocks }) now dst

syscall_send-inside :
    (s : Scheduler) (now cur t : ℕ)
    → length s.blocks ≡ max_num_tasks
    → t ≢ max_num_tasks
    → syscall_send s now cur (pos t) ≢ out_of_bounds
unfolding syscall_send handle_send
syscall_send-inside s now cur t size ne = elim (Bool-cases (ltb max_num_tasks t)) [
  | inl big ↦ rw big (return_to-inside s now cur einvalid_tid)
  | inr small ↦
      let inside : ltb t (length s.blocks) ≡ true = ground arith in
      elim (Bool-cases (is_in (block s.blocks t) zombie)) [
        | inl dead ↦ rw (small, inside, dead) (return_to-inside s now cur einvalid_tid)
        | inr alive ↦ elim (Bool-cases (is_in (block s.blocks t) receive)) [
          | inl waits ↦ rw (small, inside, alive, waits) (handle_send-inside s now cur t)
          | inr busy ↦ rw (small, inside, alive, busy) (ground arith)
        ]
      ]
]

-- With all 125 descriptors, a Send to a task id that is not negative looks at a descriptor outside the
-- array exactly for the id 125.
pub syscall_send-out_of_bounds :
    (s : Scheduler) (now cur t : ℕ)
    → length s.blocks ≡ max_num_tasks
    → (syscall_send s now cur (pos t) ≡ out_of_bounds) ↔ (t ≡ max_num_tasks)
unfolding syscall_send
syscall_send-out_of_bounds s now cur t size = (
  λ e. elim (Bool-cases (t == max_num_tasks)) [
    | inl hit ↦ ground arith
    | inr miss ↦ absurd (syscall_send-inside s now cur t size (ground arith) e)
  ],
  λ e.
      let small : ltb max_num_tasks t ≡ false = ground arith in
      let outside : ltb t (length s.blocks) ≡ false = ground arith in rw (small, outside) refl,
)
