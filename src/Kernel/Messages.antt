-- ===== src/Kernel/Messages.antt =====
-- The branches of `kmain` (src/main.c) for Send, Receive and Reply, with `handle_send` and `msg_copy`.
-- Each takes the value of the timer at the call of `add_to_ready_queue`, and `cur`, the task that made
-- the call. A message is the list of its bytes, so that its length is not negative.
pub mod Chain
pub mod Send
pub mod Receive
pub mod Deliver
pub mod Bounds
pub mod Reply
mod Tests
use the_polling_express.Base.{
  ℕ, ◌+◌, Bool, Option, none, some, List, [], get_or, set, take, length, ltb, ◌==◌, if◌then◌else◌,
}
use the_polling_express.Base.Int.{ℤ, pos, negsuc}
use the_polling_express.Base.Outcome.{Outcome, ok, out_of_bounds, ◌>>=◌}
use the_polling_express.Kernel.Task.{
  TcbState, active, ready, zombie, send, receive, reply, event, Call, no_call, my_tid,
  my_parent_tid, yield, exit, shutdown, irq, create_call, send_call, receive_call, reply_call,
  await_event, Context, Tcb, max_num_tasks, set_return,
}
use the_polling_express.Kernel.Scheduler.{Scheduler, block, add_to_ready_queue}

abbrev pub einvalid_tid : ℤ
einvalid_tid = negsuc 0

abbrev pub enot_reply_wait : ℤ
enot_reply_wait = negsuc 1

-- the value of the enumerator
abbrev pub state_num : TcbState → ℕ
state_num active = 0
state_num ready = 1
state_num zombie = 2
state_num send = 3
state_num receive = 4
state_num reply = 5
state_num event = 6

abbrev pub is_in : Tcb → TcbState → Bool
is_in t state = state_num t.state == state_num state

-- an assignment to fields of the descriptor that `p` points to
abbrev pub modify : List Tcb → ℕ → (Tcb → Tcb) → List Tcb
modify blocks p f = set blocks p (f (block blocks p))

-- The bytes that the loop copies; the C function returns their number.
abbrev pub msg_copy : List ℕ → ℕ → List ℕ
msg_copy src destlen = take (if ltb (length src) destlen then length src else destlen) src

-- `s_args->msg`, for the call of a task that sends
abbrev pub sent : Call → List ℕ
sent no_call = []
sent my_tid = []
sent my_parent_tid = []
sent yield = []
sent exit = []
sent shutdown = []
sent irq = []
sent (create_call priority name func) = []
sent (send_call tid msg rplen) = msg
sent (receive_call msglen) = []
sent (reply_call tid msg) = []
sent (await_event e) = []

-- the length of the buffer for a message or for a reply that the call names
abbrev pub room : Call → ℕ
room no_call = 0
room my_tid = 0
room my_parent_tid = 0
room yield = 0
room exit = 0
room shutdown = 0
room irq = 0
room (create_call priority name func) = 0
room (send_call tid msg rplen) = rplen
room (receive_call msglen) = msglen
room (reply_call tid msg) = 0
room (await_event e) = 0

-- what `handle_send` writes to the receiver
abbrev pub delivered : Tcb → Tcb → Tcb
delivered src dst =
    let bytes = msg_copy (sent src.context.call) (room dst.context.call) in
    let written = record dst.context { msg = bytes; msg_tid = some src.tid } in
    record dst { context = set_return written (pos (length bytes)) }

unfoldable pub handle_send : Scheduler → ℕ → ℕ → ℕ → Outcome Scheduler
unfolding add_to_ready_queue
handle_send s now src dst =
    let sender = modify s.blocks src (λ t. record t { state = reply }) in
    let receiver = modify sender dst (λ t. record t { state = ready }) in
    let blocks = modify receiver dst (delivered (block receiver src)) in
    add_to_ready_queue (record s { blocks = blocks }) now dst

-- `set_return` and `add_to_ready_queue` for the task itself
abbrev pub return_to : Scheduler → ℕ → ℕ → ℤ → Outcome Scheduler
return_to s now cur value =
    let blocks = modify s.blocks cur (λ t. record t { context = set_return t.context value }) in
    add_to_ready_queue (record s { blocks = blocks }) now cur

-- the last `else` of Send: `cur` comes to the end of the chain of senders
unfoldable pub line_up : List Tcb → ℕ → ℕ → List Tcb
line_up blocks cur target =
    let waiting = modify blocks cur (λ t. record t { state = send; next = none }) in
    let linked : List Tcb = elim (block waiting target).want_send_end [
      | none ↦ modify waiting target (λ t. record t { want_send = some cur })
      | some last ↦ modify waiting last (λ t. record t { next = some cur })
    ] in
    modify linked target (λ t. record t { want_send_end = some cur })

unfoldable pub syscall_send : Scheduler → ℕ → ℕ → ℤ → Outcome Scheduler
unfolding handle_send line_up
syscall_send s now cur (negsuc n) = return_to s now cur einvalid_tid
syscall_send s now cur (pos target) =
    if ltb max_num_tasks target
    then return_to s now cur einvalid_tid
    else if ltb target (length s.blocks)
    then (if is_in (block s.blocks target) zombie
        then return_to s now cur einvalid_tid
        else if is_in (block s.blocks target) receive
        then handle_send s now cur target
        else ok (record s { blocks = line_up s.blocks cur target }))
    else out_of_bounds

-- Receive with a sender: its first lines, which take `src` from the chain
unfoldable pub take_sender : List Tcb → ℕ → ℕ → List Tcb
take_sender blocks cur src =
    let rest = (block blocks src).next in
    let shorter = modify blocks cur (λ t. record t { want_send = rest }) in
    let ended : List Tcb = elim rest [
      | none ↦ modify shorter cur (λ t. record t { want_send_end = none })
      | some p ↦ shorter
    ] in
    modify ended src (λ t. record t { next = none })

unfoldable pub syscall_receive : Scheduler → ℕ → ℕ → Outcome Scheduler
unfolding handle_send take_sender
syscall_receive s now cur = elim (block s.blocks cur).want_send [
  | none ↦ ok (record s { blocks = modify s.blocks cur (λ t. record t { state = receive }) })
  | some src ↦ handle_send (record s { blocks = take_sender s.blocks cur src }) now src cur
]

-- The timer is read twice if the reply is delivered. The debug messages are left out.
unfoldable pub syscall_reply : Scheduler → ℕ → ℕ → ℕ → ℤ → List ℕ → Outcome Scheduler
unfolding add_to_ready_queue
syscall_reply s now later cur (negsuc n) bytes = out_of_bounds
syscall_reply s now later cur (pos target) bytes =
    let copied = msg_copy bytes (room (block s.blocks target).context.call) in
    let woken = modify s.blocks target (λ t. record t {
      state = ready;
      context = set_return (record t.context { reply_msg = copied }) (pos (length copied));
    }) in
    if ltb target (length s.blocks)
    then (if is_in (block s.blocks target) zombie
        then return_to s now cur einvalid_tid
        else if is_in (block s.blocks target) reply
        then add_to_ready_queue (record s { blocks = woken }) now target
          >>= (λ s'. return_to s' later cur (pos (length copied)))
        else return_to s now cur enot_reply_wait)
    else out_of_bounds
