-- ===== src/Kernel/Task.antt =====
-- include/kernel/task.h and include/hal/context.h: the descriptor of a task. A pointer to a descriptor
-- is its index in the array `backing` of `kmain`, and NULL is `none`.
use the_polling_express.Base.{ℕ, Option, none, List, []}
use the_polling_express.Base.Int.{ℤ, pos, negsuc}

pub data TcbState : Type 0 where
  active ready zombie send receive reply event : TcbState

-- What a task asks for when it traps, with the arguments that register r0 points to or holds.
pub data Call : Type 0 where
  no_call my_tid my_parent_tid yield exit shutdown irq : Call
  create_call : ℤ → List ℕ → ℕ → Call
  send_call : ℤ → List ℕ → ℕ → Call
  receive_call : ℕ → Call
  reply_call : ℤ → List ℕ → Call
  await_event : ℕ → Call

-- `user_task`, as far as the kernel uses it: the register r0 after the call, the task's code, the call
-- that it made last, and what the kernel wrote to the buffers and the variable that this call names.
pub record Context : Type 0 where
  pub r0 : ℤ
  pub code : ℕ
  pub call : Call
  pub msg : List ℕ
  pub msg_tid : Option ℕ
  pub reply_msg : List ℕ

pub record Tcb : Type 0 where
  pub next : Option ℕ
  pub task_name : List ℕ
  pub tid : ℕ
  pub priority : ℤ
  pub state : TcbState
  pub parent_tid : ℤ
  pub context : Context
  pub added_time : ℕ
  pub want_send : Option ℕ
  pub want_send_end : Option ℕ

abbrev pub max_num_tasks : ℕ
max_num_tasks = 125

-- `init_user_task`: all registers but the program counter, the stack and the link register are 0.
abbrev pub init_user_task : ℕ → Context
init_user_task func = record {
  r0 = pos 0;
  code = func;
  call = no_call;
  msg = [];
  msg_tid = none;
  reply_msg = [];
}

-- `set_return`
abbrev pub set_return : Context → ℤ → Context
set_return context value = record context { r0 = value }

-- what the model reads outside the array
abbrev pub no_tcb : Tcb
no_tcb = record {
  next = none;
  task_name = [];
  tid = 0;
  priority = pos 0;
  state = zombie;
  parent_tid = negsuc 0;
  context = init_user_task 0;
  added_time = 0;
  want_send = none;
  want_send_end = none;
}
