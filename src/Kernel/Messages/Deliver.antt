-- ===== src/Kernel/Messages/Deliver.antt =====
-- `handle_send` of src/main.c, and the branches of Send and Receive that call it.
use mathlib.Core.List.{Perm}
use the_polling_express.Base.{
  ℕ, zero, suc, take, some, [], Bool-cases, inl, inr, ◌≤◌, ◌≡◌, refl, sym, ap, ◌∙◌, List, ◌∷◌,
  arith, length, ltb,
}
use the_polling_express.Base.Int.{pos}
use the_polling_express.Kernel.Task.{Tcb, Context, ready, reply}
use the_polling_express.Kernel.Scheduler.{Scheduler, block}
use the_polling_express.Kernel.Scheduler.Queue.{IsQueue, entries}
use the_polling_express.Kernel.Messages.{msg_copy}
use the_polling_express.Kernel.Messages.Receive.{Linked}

take_all : (xs : List ℕ) (n : ℕ) → length xs ≤ n → take n xs ≡ xs
take_all [] zero le = refl
take_all [] (suc n) le = refl
take_all (x ∷ xs) zero le = absurd (omega arith)
take_all (x ∷ xs) (suc n) le = ap (◌∷◌ x) (take_all xs n (omega arith))

-- `msg_copy` copies as many bytes as there is room for.
pub msg_copy-take : (src : List ℕ) (destlen : ℕ) → msg_copy src destlen ≡ take destlen src
msg_copy-take src destlen = elim (Bool-cases (ltb (length src) destlen)) [
  | inl short ↦
      rw short (take_all src (length src) (omega arith) ∙ sym (take_all src destlen (ground arith)))
  | inr long ↦ rw long refl
]

-- the context of a task whose Receive returns with these bytes of the task `tid`
abbrev pub with_message : Context → List ℕ → ℕ → Context
with_message context bytes tid = record context {
  r0 = pos (length bytes);
  msg = bytes;
  msg_tid = some tid;
}

-- The task `src` waits for the reply to its message, of which `dst` has the bytes, and `dst` is ready.
pub record Delivered (s s' : Scheduler) (src dst : ℕ) (bytes : List ℕ) : Type 0 where
  pub queue : IsQueue s'
  pub added : Perm (entries s') (dst ∷ entries s)
  pub links : Linked s.blocks s'.blocks
  pub sender : (block s'.blocks src).state ≡ reply
  pub receiver : (block s'.blocks dst).state ≡ ready
  pub message :
      (block s'.blocks dst).context
      ≡ with_message (block s.blocks dst).context bytes (block s.blocks src).tid

abbrev to_reply : Tcb → Tcb
to_reply t = record t { state = reply }

abbrev to_ready : Tcb → Tcb
to_ready t = record t { state = ready }

abbrev stamp : ℕ → Tcb → Tcb
stamp now t = record t { added_time = now }
