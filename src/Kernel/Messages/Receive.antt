-- ===== src/Kernel/Messages/Receive.antt =====
-- Receive of `kmain` in src/main.c: the first task of the chain is taken out of it, and `handle_send`
-- delivers its message.
use mathlib.Core.Path.{subst}
use the_polling_express.Base.{
  ℕ, ◌<◌, ◌≡◌, ◌≢◌, refl, sym, ap, ◌∙◌, Option, none, List, [], ◌∷◌, All, length, length-set,
  get_or,
}
use the_polling_express.Base.HeapOrder.{parent}
use the_polling_express.Kernel.Task.{Tcb}
use the_polling_express.Kernel.Scheduler.{Scheduler, block}
use the_polling_express.Kernel.Scheduler.Order.{urgency}
use the_polling_express.Kernel.Scheduler.Queue.{IsQueue}
use the_polling_express.Kernel.Messages.{modify, take_sender}
use the_polling_express.Kernel.Messages.Chain.{
  IsChain-same, IsChain-keep, IsWaiting, next_of, modify_self, modify_ne, modify_field, All-map,
}

-- The links of all descriptors are the same.
pub record Linked (b b' : List Tcb) : Type 0 where
  pub size : length b' ≡ length b
  pub next : (p : ℕ) → next_of b' p ≡ next_of b p
  pub first : (p : ℕ) → (block b' p).want_send ≡ (block b p).want_send
  pub last : (p : ℕ) → (block b' p).want_send_end ≡ (block b p).want_send_end

-- What the scheduler and the delivery of a message read is the same.
pub record Kept (b b' : List Tcb) : Type 0 where
  pub size : length b' ≡ length b
  pub priority : (p : ℕ) → (block b' p).priority ≡ (block b p).priority
  pub time : (p : ℕ) → (block b' p).added_time ≡ (block b p).added_time
  pub tid : (p : ℕ) → (block b' p).tid ≡ (block b p).tid
  pub context : (p : ℕ) → (block b' p).context ≡ (block b p).context

pub IsWaiting-Linked :
    (b b' : List Tcb) (t : ℕ) (ps : List ℕ) → Linked b b' → IsWaiting b t ps → IsWaiting b' t ps
IsWaiting-Linked b b' t ps l w = record {
  chain = IsChain-same (next_of b) (next_of b') _ _ ps l.next (l.first t) w.chain;
  ending = l.last t ∙ w.ending;
  inside = rw (l.size) w.inside;
  distinct = w.distinct;
}

urgency-same :
    (t u : Tcb) → t.priority ≡ u.priority → t.added_time ≡ u.added_time → urgency t ≡ urgency u
unfolding urgency
urgency-same t u e f = rw (e, f) refl

pub IsQueue-Kept :
    (s : Scheduler) (b : List Tcb)
    → ((p : ℕ) → (block b p).priority ≡ (block s.blocks p).priority)
    → ((p : ℕ) → (block b p).added_time ≡ (block s.blocks p).added_time)
    → IsQueue s
    → IsQueue (record s { blocks = b })
IsQueue-Kept s b priority time q =
    let same = λ (p : ℕ). urgency-same (block b p) (block s.blocks p) (priority p) (time p) in
    record {
      room = q.room;
      bounded = q.bounded;
      ranges = λ p. record {
        low = rw (priority p) (q.ranges p).low;
        high = rw (priority p) (q.ranges p).high;
        time = rw (time p) (q.ranges p).time;
      };
      ordered = λ c h lt.
          rw (same (get_or s.ready_queue c 0), same (get_or s.ready_queue (parent c) 0))
            (q.ordered c h lt);
    }

modify-Kept :
    (blocks : List Tcb) (p : ℕ) (f : Tcb → Tcb)
    → p < length blocks
    → ((u : Tcb) → (f u).priority ≡ u.priority)
    → ((u : Tcb) → (f u).added_time ≡ u.added_time)
    → ((u : Tcb) → (f u).tid ≡ u.tid)
    → ((u : Tcb) → (f u).context ≡ u.context)
    → Kept blocks (modify blocks p f)
modify-Kept blocks p f lt priority time tid context = record {
  size = length-set blocks p (f (block blocks p));
  priority = λ q. modify_field blocks p f lt (λ u. u.priority) q priority;
  time = λ q. modify_field blocks p f lt (λ u. u.added_time) q time;
  tid = λ q. modify_field blocks p f lt (λ u. u.tid) q tid;
  context = λ q. modify_field blocks p f lt (λ u. u.context) q context;
}

Kept-trans : (a b c : List Tcb) → Kept a b → Kept b c → Kept a c
Kept-trans a b c h k = record {
  size = k.size ∙ h.size;
  priority = λ p. k.priority p ∙ h.priority p;
  time = λ p. k.time p ∙ h.time p;
  tid = λ p. k.tid p ∙ h.tid p;
  context = λ p. k.context p ∙ h.context p;
}

abbrev begin_at : Option ℕ → Tcb → Tcb
begin_at rest u = record u { want_send = rest }

abbrev stop : Tcb → Tcb
stop u = record u { want_send_end = none }

abbrev unlink : Tcb → Tcb
unlink u = record u { next = none }

pub take_first :
    (blocks : List Tcb) (cur p : ℕ) (ps : List ℕ)
    → cur < length blocks
    → p ≢ cur
    → IsWaiting blocks cur (p ∷ ps)
    → IsWaiting (take_sender blocks cur p) cur ps × Kept blocks (take_sender blocks cur p)
unfolding take_sender
take_first blocks cur p [] hc ne w =
    let (s, e) = w.chain in
    let one = modify blocks cur (begin_at (next_of blocks p)) in
    let kept =
      modify-Kept blocks cur (begin_at (next_of blocks p)) hc (λ u. refl) (λ u. refl) (λ u. refl)
        (λ u. refl) in
    let h1 : cur < length one = rw kept.size hc in
    let two = modify one cur stop in
    let kept' = modify-Kept one cur stop h1 (λ u. refl) (λ u. refl) (λ u. refl) (λ u. refl) in
    let h2 : p < length two = rw (kept'.size, kept.size) w.inside.0 in
    let kept'' = modify-Kept two p unlink h2 (λ u. refl) (λ u. refl) (λ u. refl) (λ u. refl) in
    rw e (
      record {
        chain =
            modify_field two p unlink h2 (λ u. u.want_send) cur (λ u. refl)
            ∙ modify_field one cur stop h1 (λ u. u.want_send) cur (λ u. refl)
            ∙ ap (λ u. u.want_send) (modify_self blocks cur (begin_at (next_of blocks p)) hc)
            ∙ e;
        ending =
            modify_field two p unlink h2 (λ u. u.want_send_end) cur (λ u. refl)
            ∙ ap (λ u. u.want_send_end) (modify_self one cur stop h1);
        inside = tt;
        distinct = tt;
      },
      Kept-trans blocks two (modify two p unlink) (Kept-trans blocks one two kept kept') kept'',
    )
take_first blocks cur p (q ∷ ps) hc ne w =
    let (s, (e, c)) = w.chain in
    let one = modify blocks cur (begin_at (next_of blocks p)) in
    let kept =
      modify-Kept blocks cur (begin_at (next_of blocks p)) hc (λ u. refl) (λ u. refl) (λ u. refl)
        (λ u. refl) in
    let h1 : p < length one = rw kept.size w.inside.0 in
    let two = modify one p unlink in
    let kept' = modify-Kept one p unlink h1 (λ u. refl) (λ u. refl) (λ u. refl) (λ u. refl) in
    let same = λ (k : ℕ) (out : k ≢ p).
      ap (λ u. u.next) (modify_ne one p unlink h1 k out)
      ∙ modify_field blocks cur (begin_at (next_of blocks p)) hc (λ u. u.next) k (λ u. refl) in
    rw e (
      record {
        chain =
            IsChain-keep (next_of blocks) (next_of two) _ (q ∷ ps)
              (All-map (λ k. k ≢ p) (λ k. next_of two k ≡ next_of blocks k) (q ∷ ps) same
                w.distinct.0)
              (
                modify_field one p unlink h1 (λ u. u.want_send) cur (λ u. refl)
                    ∙ ap (λ u. u.want_send)
                        (modify_self blocks cur (begin_at (next_of blocks p)) hc)
                    ∙ e,
                c,
              );
        ending =
            modify_field one p unlink h1 (λ u. u.want_send_end) cur (λ u. refl)
            ∙ modify_field blocks cur (begin_at (next_of blocks p)) hc (λ u. u.want_send_end) cur
                (λ u. refl)
            ∙ w.ending;
        inside = subst (λ n. All (λ k. k < n) (q ∷ ps)) (sym (kept'.size ∙ kept.size)) w.inside.1;
        distinct = w.distinct.1;
      },
      Kept-trans blocks one two kept kept',
    )
