-- ===== src/User/Straightpath/Send.antt =====
-- src/user/straightpathworker.c: the switches that the calls of `send_branches` send, one call for each
-- of the worker's readings of the clock.
use the_polling_express.Base.{
  ℕ, zero, suc, ◌/◌, ◌%◌, ◌≤◌, ◌<◌, ◌≡◌, refl, sym, ap, ◌∙◌, true, false, Option, none, some, List,
  [], ◌∷◌, ◌++◌, arith, ◌==◌, drop, length, ◌⊎◌, inl, inr,
}
use mathlib.Core.List.{append-nil}
use the_polling_express.Base.Outcome.{Outcome, ok, EndsIn, EndsIn-bind, ◌>>=◌}
use the_polling_express.User.Trainserver.Step.{
  TrainReq, worker, worker_sensor, sensor_event, branch_event, speed, reverse, switch, worker_cmd,
}
use the_polling_express.User.Straightpath.{send_loop, is_end, send_branches}

-- `branches` with these codes, -1 behind them, and what stands behind it
abbrev pub entries : List ℕ → List (Option ℕ) → List (Option ℕ)
entries [] junk = none ∷ junk
entries (c ∷ codes) junk = some c ∷ entries codes junk

-- The switches of the codes with their directions; 0 stands for a sensor.
unfoldable pub settings : List ℕ → List (ℕ × ℕ)
settings [] = []
settings (zero ∷ codes) = settings codes
settings (suc c ∷ codes) = (suc c % 256, suc c / 256) ∷ settings codes

unfoldable pub sensors_in : List ℕ → ℕ
sensors_in [] = 0
sensors_in (zero ∷ codes) = suc (sensors_in codes)
sensors_in (suc c ∷ codes) = sensors_in codes

-- the switches of commands
unfoldable pub switched : List TrainReq → List (ℕ × ℕ)
switched [] = []
switched (r ∷ rs) = elim r [ switch sw dir time ↦ (sw, dir) ∷ switched rs | _ ↦ switched rs ]

-- the calls at some times, one behind the other
unfoldable pub send_all : List (Option ℕ) → Option ℕ → List ℕ → Outcome (List TrainReq × Option ℕ)
unfolding send_branches
send_all branches j [] = ok ([], j)
send_all branches j (time ∷ times) = send_branches branches j time >>= λ r.
    send_all branches (r.1) times >>= λ q. ok (r.0 ++ q.0, q.1)

drop-next :
    (xs : List (Option ℕ)) (j : ℕ) (y : Option ℕ) (ys : List (Option ℕ))
    → drop j xs ≡ y ∷ ys
    → drop (suc j) xs ≡ ys
drop-next [] zero y ys e = ground arith
drop-next [] (suc j) y ys e = ground arith
drop-next (x ∷ xs) zero y ys e = ground arith
drop-next (x ∷ xs) (suc j) y ys e = drop-next xs j y ys e

switched-append : (a b : List TrainReq) → switched (a ++ b) ≡ switched a ++ switched b
unfolding switched
switched-append [] b = refl
switched-append (worker t ∷ a) b = switched-append a b
switched-append (worker_sensor r t ∷ a) b = switched-append a b
switched-append (sensor_event ∷ a) b = switched-append a b
switched-append (branch_event ∷ a) b = switched-append a b
switched-append (speed v d t ∷ a) b = switched-append a b
switched-append (reverse v d t ∷ a) b = switched-append a b
switched-append (switch sw d t ∷ a) b = ap (◌∷◌ (sw, d)) (switched-append a b)
switched-append (worker_cmd ∷ a) b = switched-append a b

module _ (branches junk : List (Option ℕ)) where
  -- The entry `j` is the end, ...
  abbrev pub IsDone : ℕ → Type 0
  IsDone j = drop j branches ≡ none ∷ junk

  -- ... or a sensor, with these codes behind it.
  abbrev IsReady : List ℕ → ℕ → Type 0
  IsReady codes j = drop j branches ≡ some 0 ∷ entries codes junk

  -- what a call sends of the codes
  abbrev Sent : List ℕ → List TrainReq × ℕ → Type 0
  Sent codes (commands, j) =
      (IsDone j × (switched commands ≡ settings codes))
      ⊎ ((later : List ℕ) × IsReady later j
          × (settings codes ≡ switched commands ++ settings later)
          × (sensors_in codes ≡ suc (sensors_in later)))

  Sent-cons :
      (c time : ℕ) (codes : List ℕ) (r : List TrainReq × ℕ)
      → Sent codes r
      → Sent (suc c ∷ codes) (switch (suc c % 256) (suc c / 256) time ∷ r.0, r.1)
  unfolding settings switched sensors_in
  Sent-cons c time codes r sent = elim sent [
    | inl (end, same) ↦ inl (end, ap (◌∷◌ (suc c % 256, suc c / 256)) same)
    | inr (later, ready, same, fewer) ↦
        inr (later, ready, ap (◌∷◌ (suc c % 256, suc c / 256)) same, fewer)
  ]

  send_loop-Sent :
      (codes : List ℕ) (time j : ℕ)
      → drop j branches ≡ entries codes junk
      → EndsIn (Sent codes) (send_loop (entries codes junk) time j)
  unfolding send_loop switched settings sensors_in
  send_loop-Sent [] time j e = inl (e, refl)
  send_loop-Sent (zero ∷ codes) time j e = inr (codes, e, refl, refl)
  send_loop-Sent (suc c ∷ codes) time j e =
      let real : (suc c == 0) ≡ false = ground arith in
      rw real (
        EndsIn-bind _ _ (send_loop (entries codes junk) time (suc j)) _
          (λ r sent. Sent-cons c time codes r sent)
          (send_loop-Sent codes time (suc j)
            (drop-next branches j (some (suc c)) (entries codes junk) e)))

  -- where the next call starts: at the codes that are left
  abbrev IsAt : List ℕ → Option ℕ → Type 0
  IsAt codes none = branches ≡ entries codes junk
  IsAt codes (some j) = IsReady codes j

  abbrev SentTo : List ℕ → List TrainReq × Option ℕ → Type 0
  SentTo codes (commands, none) = ⊥
  SentTo codes (commands, some j) = Sent codes (commands, j)

  send_loop-at :
      (l : List (Option ℕ)) (codes : List ℕ) (time j : ℕ)
      → l ≡ entries codes junk
      → drop j branches ≡ entries codes junk
      → EndsIn (Sent codes) (send_loop l time j)
  send_loop-at l codes time j here e = rw here (send_loop-Sent codes time j e)

  is_end-code :
      (j c : ℕ) (rest : List (Option ℕ))
      → drop j branches ≡ some c ∷ rest
      → is_end branches j ≡ ok false
  unfolding is_end
  is_end-code j c rest e = rw (e, is_end) refl

  is_end-done : (j : ℕ) → IsDone j → is_end branches j ≡ ok true
  unfolding is_end
  is_end-done j e = rw (e, is_end) refl

  send_branches-SentTo :
      (codes : List ℕ) (j : Option ℕ) (time : ℕ)
      → IsAt codes j
      → EndsIn (SentTo codes) (send_branches branches j time)
  unfolding send_branches
  send_branches-SentTo codes none time e =
      EndsIn-bind _ _ (send_loop branches time 0) _ (λ r sent. sent)
        (send_loop-at branches codes time 0 e e)
  send_branches-SentTo codes (some j) time ready =
      let behind = drop-next branches j (some 0) (entries codes junk) ready in
      rw (is_end-code j 0 (entries codes junk) ready) (
        EndsIn-bind _ _ (send_loop (drop (suc j) branches) time (suc j)) _ (λ r sent. sent)
          (send_loop-at (drop (suc j) branches) codes time (suc j) behind behind))

  -- What some calls send: the settings of the codes, all of them if there are calls enough.
  abbrev pub SentAll : List ℕ → List TrainReq × Option ℕ → Type 0
  SentAll codes (commands, none) = ⊥
  SentAll codes (commands, some j) = IsDone j × (switched commands ≡ settings codes)

  done-SentAll :
      (times : List ℕ) (j : ℕ) → IsDone j → EndsIn (SentAll []) (send_all branches (some j) times)
  unfolding send_all send_branches switched settings
  done-SentAll [] j end = (end, refl)
  done-SentAll (time ∷ times) j end = rw (is_end-done j end) (
      EndsIn-bind _ _ (send_all branches (some j) times) _ (λ r sent. sent)
        (done-SentAll times j end))

  joined :
      (codes rest : List ℕ) (commands : List TrainReq) (q : List TrainReq × Option ℕ)
      → settings codes ≡ switched commands ++ settings rest
      → SentAll rest q
      → SentAll codes (commands ++ q.0, q.1)
  joined codes rest commands (more, none) same sent = absurd sent
  joined codes rest commands (more, some j) same (end, all) =
      (end, switched-append commands more ∙ ap (λ l. switched commands ++ l) all ∙ sym same)

  after_call :
      (codes times : List ℕ) (r : List TrainReq × Option ℕ)
      → SentTo codes r
      → sensors_in codes ≤ length times
      → ((later : List ℕ) (j : ℕ)
          → IsReady later j
          → sensors_in later < length times
          → EndsIn (SentAll later) (send_all branches (some j) times))
      → EndsIn (SentAll codes) (send_all branches (r.1) times >>= λ q. ok (r.0 ++ q.0, q.1))
  unfolding settings
  after_call codes times (commands, none) sent calls ih = absurd sent
  after_call codes times (commands, some j) (inl (end, same)) calls ih =
      EndsIn-bind _ _ (send_all branches (some j) times) _
        (λ q all. joined codes [] commands q (sym same ∙ sym (append-nil (switched commands))) all)
        (done-SentAll times j end)
  after_call codes times (commands, some j) (inr (later, ready, same, fewer)) calls ih =
      EndsIn-bind _ _ (send_all branches (some j) times) _
        (λ q all. joined codes later commands q same all) (ih later j ready (omega (arith, fewer)))

  send_all-SentAll :
      (codes : List ℕ) (j : Option ℕ) (times : List ℕ)
      → IsAt codes j
      → sensors_in codes < length times
      → EndsIn (SentAll codes) (send_all branches j times)
  unfolding send_all
  send_all-SentAll codes j [] at calls = absurd (omega arith)
  send_all-SentAll codes j (time ∷ times) at calls =
      EndsIn-bind _ _ (send_branches branches j time) _
        (λ r sent.
          after_call codes times r sent (omega arith)
            (λ later k ready fewer. send_all-SentAll later (some k) times ready fewer))
        (send_branches-SentTo codes j time at)

-- With one call more than there are sensors among the codes, the calls of `send_branches` send the
-- switch of each code with its direction, in order, each once, and leave `t->j` at the end.
pub send_all_lem :
    (codes : List ℕ) (junk : List (Option ℕ)) (times : List ℕ)
    → sensors_in codes < length times
    → EndsIn (SentAll (entries codes junk) junk codes) (send_all (entries codes junk) none times)
send_all_lem codes junk times calls =
    send_all-SentAll (entries codes junk) junk codes none times refl calls
