-- ===== src/Kernel/Messages/Send.antt =====
-- Send of `kmain` in src/main.c to a task that does not wait for a message: the sender comes to the end
-- of the chain.
use mathlib.Core.Path.{subst}
use the_polling_express.Base.{
  ℕ, ◌<◌, ◌≤◌, ◌≡◌, ◌≢◌, refl, sym, ap, ◌∙◌, none, some, List, [], ◌∷◌, ◌++◌, All, arith, length,
  length-set, true, false, ltb,
}
use the_polling_express.Base.Int.{pos}
use the_polling_express.Base.Outcome.{ok}
use the_polling_express.Kernel.Task.{Tcb, send, receive, zombie, max_num_tasks}
use the_polling_express.Kernel.Scheduler.{Scheduler, block}
use the_polling_express.Kernel.Scheduler.Queue.{entries}
use the_polling_express.Kernel.Messages.{modify, line_up, syscall_send, is_in}
use the_polling_express.Kernel.Messages.Chain.{
  IsChain, IsChain-same, IsChain-snoc, IsWaiting, last-All, last_of, last_of-snoc, Distinct,
  next_of, modify_self, modify_ne, modify_field, All-map,
}

last_of-cons : (p : ℕ) (ps : List ℕ) → (l : ℕ) × (last_of (p ∷ ps) ≡ some l)
last_of-cons p [] = (p, refl)
last_of-cons p (q ∷ ps) = last_of-cons q ps

All-snoc : (P : ℕ → Type 0) (ps : List ℕ) (cur : ℕ) → All P ps → P cur → All P (ps ++ cur ∷ [])
All-snoc P [] cur h p = (p, tt)
All-snoc P (q ∷ ps) cur (k, h) p = (k, All-snoc P ps cur h p)

Distinct-snoc :
    (ps : List ℕ) (cur : ℕ) → Distinct ps → All (λ p. p ≢ cur) ps → Distinct (ps ++ cur ∷ [])
Distinct-snoc [] cur d h = (tt, tt)
Distinct-snoc (p ∷ ps) cur (other, d) (ne, h) =
    (All-snoc (λ q. q ≢ p) ps cur other (λ e. ne (sym e)), Distinct-snoc ps cur d h)

abbrev step_out : Tcb → Tcb
step_out u = record u { state = send; next = none }

abbrev link_to : ℕ → Tcb → Tcb
link_to cur u = record u { next = some cur }

abbrev end_with : ℕ → Tcb → Tcb
end_with cur u = record u { want_send_end = some cur }

abbrev start_with : ℕ → Tcb → Tcb
start_with cur u = record u { want_send = some cur }

-- What the two cases of `line_up` share: the last assignment, to `want_send_end`.
close :
    (linked : List Tcb) (t cur : ℕ) (ps : List ℕ)
    → t < length linked
    → IsChain (next_of linked) (block linked t).want_send (ps ++ cur ∷ [])
    → All (λ p. p < length linked) (ps ++ cur ∷ [])
    → Distinct (ps ++ cur ∷ [])
    → (block linked cur).state ≡ send
    → IsWaiting (modify linked t (end_with cur)) t (ps ++ cur ∷ [])
      × ((block (modify linked t (end_with cur)) cur).state ≡ send)
close linked t cur ps lt c inside d sending =
    let done = modify linked t (end_with cur) in
    let waiting : IsWaiting done t (ps ++ cur ∷ []) = record {
      chain =
          IsChain-same (next_of linked) (next_of done) _ _ (ps ++ cur ∷ [])
            (λ p. modify_field linked t (end_with cur) lt (λ u. u.next) p (λ u. refl))
            (modify_field linked t (end_with cur) lt (λ u. u.want_send) t (λ u. refl)) c;
      ending =
          ap (λ u. u.want_send_end) (modify_self linked t (end_with cur) lt)
          ∙ sym (last_of-snoc ps cur);
      inside = rw (length-set linked t (end_with cur (block linked t))) inside;
      distinct = d;
    } in
    (waiting, modify_field linked t (end_with cur) lt (λ u. u.state) cur (λ u. refl) ∙ sending)

line_up_first :
    (blocks : List Tcb) (cur t : ℕ)
    → cur < length blocks
    → t < length blocks
    → IsWaiting blocks t []
    → IsWaiting (line_up blocks cur t) t (cur ∷ [])
      × ((block (line_up blocks cur t) cur).state ≡ send)
unfolding line_up
line_up_first blocks cur t hc ht w =
    let first = modify blocks cur step_out in
    let size = length-set blocks cur (step_out (block blocks cur)) in
    let ht' : t < length first = rw size ht in
    let linked = modify first t (start_with cur) in
    let size' = length-set first t (start_with cur (block first t)) in
    let end = modify_field blocks cur step_out hc (λ u. u.want_send_end) t (λ u. refl) ∙ w.ending in
    rw end (
      close linked t cur [] (rw size' ht')
        (
          ap (λ u. u.want_send) (modify_self first t (start_with cur) ht'),
          modify_field first t (start_with cur) ht' (λ u. u.next) cur (λ u. refl)
              ∙ ap (λ u. u.next) (modify_self blocks cur step_out hc),
        )
        (rw (size', size) hc, tt) (tt, tt)
        (modify_field first t (start_with cur) ht' (λ u. u.state) cur (λ u. refl)
          ∙ ap (λ u. u.state) (modify_self blocks cur step_out hc)))

line_up_more :
    (blocks : List Tcb) (cur t p : ℕ) (ps : List ℕ)
    → cur < length blocks
    → t < length blocks
    → All (λ q. q ≢ cur) (p ∷ ps)
    → IsWaiting blocks t (p ∷ ps)
    → IsWaiting (line_up blocks cur t) t ((p ∷ ps) ++ cur ∷ [])
      × ((block (line_up blocks cur t) cur).state ≡ send)
unfolding line_up
line_up_more blocks cur t p ps hc ht fresh w =
    let (l, e) = last_of-cons p ps in
    let first = modify blocks cur step_out in
    let size = length-set blocks cur (step_out (block blocks cur)) in
    let ht' : t < length first = rw size ht in
    let hl : l < length first = rw size (last-All (λ q. q < length blocks) (p ∷ ps) l w.inside e) in
    let ne : cur ≢ l = λ k. last-All (λ q. q ≢ cur) (p ∷ ps) l fresh e (sym k) in
    let linked = modify first l (link_to cur) in
    let size' = length-set first l (link_to cur (block first l)) in
    let end =
      modify_field blocks cur step_out hc (λ u. u.want_send_end) t (λ u. refl) ∙ w.ending ∙ e in
    let begin =
      modify_field first l (link_to cur) hl (λ u. u.want_send) t (λ u. refl)
      ∙ modify_field blocks cur step_out hc (λ u. u.want_send) t (λ u. refl) in
    let same = λ (q : ℕ) (out : q ≢ cur) (k : q ≢ l).
      ap (λ u. u.next)
        (modify_ne first l (link_to cur) hl q k ∙ modify_ne blocks cur step_out hc q out) in
    rw end (
      close linked t cur (p ∷ ps) (rw size' ht')
        (subst (λ k. IsChain (next_of linked) k ((p ∷ ps) ++ cur ∷ [])) (sym begin)
          (IsChain-snoc (next_of blocks) (next_of linked) (block blocks t).want_send (p ∷ ps) l cur
            w.chain e w.distinct
            (All-map (λ q. q ≢ cur) (λ q. q ≢ l → next_of linked q ≡ next_of blocks q) (p ∷ ps) same
              fresh)
            (ap (λ u. u.next) (modify_self first l (link_to cur) hl))
            (ap (λ u. u.next)
              (modify_ne first l (link_to cur) hl cur ne ∙ modify_self blocks cur step_out hc))))
        (subst (λ n. All (λ q. q < n) ((p ∷ ps) ++ cur ∷ [])) (sym (size' ∙ size))
          (All-snoc (λ q. q < length blocks) (p ∷ ps) cur w.inside hc))
        (Distinct-snoc (p ∷ ps) cur w.distinct fresh)
        (modify_field first l (link_to cur) hl (λ u. u.state) cur (λ u. refl)
          ∙ ap (λ u. u.state) (modify_self blocks cur step_out hc)))

line_up_lem :
    (blocks : List Tcb) (cur t : ℕ) (ps : List ℕ)
    → cur < length blocks
    → t < length blocks
    → All (λ q. q ≢ cur) ps
    → IsWaiting blocks t ps
    → IsWaiting (line_up blocks cur t) t (ps ++ cur ∷ [])
      × ((block (line_up blocks cur t) cur).state ≡ send)
line_up_lem blocks cur t [] hc ht fresh w = line_up_first blocks cur t hc ht w
line_up_lem blocks cur t (p ∷ ps) hc ht fresh w = line_up_more blocks cur t p ps hc ht fresh w

-- A Send to a task that neither is a zombie nor waits for a message leaves the sender at the end of the
-- chain of those who wait to send to it, in the state SEND, and the same tasks in the queue.
pub syscall_send-IsWaiting :
    (s : Scheduler) (now cur t : ℕ) (ps : List ℕ)
    → length s.blocks ≤ max_num_tasks
    → cur < length s.blocks
    → t < length s.blocks
    → is_in (block s.blocks t) zombie ≡ false
    → is_in (block s.blocks t) receive ≡ false
    → All (λ q. q ≢ cur) ps
    → IsWaiting s.blocks t ps
    → (s' : Scheduler) × (syscall_send s now cur (pos t) ≡ ok s')
      × IsWaiting s'.blocks t (ps ++ cur ∷ [])
      × ((block s'.blocks cur).state ≡ send)
      × (entries s' ≡ entries s)
unfolding syscall_send
syscall_send-IsWaiting s now cur t ps fits hc ht alive busy fresh w =
    let small : ltb max_num_tasks t ≡ false = ground arith in
    let inside : ltb t (length s.blocks) ≡ true = ground arith in
    let (waiting, sending) = line_up_lem s.blocks cur t ps hc ht fresh w in
    rw (small, inside, alive, busy)
      (record s { blocks = line_up s.blocks cur t }, refl, waiting, sending, refl)
