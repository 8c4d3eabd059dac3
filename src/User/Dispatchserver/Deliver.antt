-- ===== src/User/Dispatchserver/Deliver.antt =====
-- src/user/dispatchserver.c: the loop over the trains, which tells the workers.
use the_polling_express.Base.{
  ℕ, suc, ◌+◌, ◌≡◌, refl, sym, ap, ap₂, ◌∙◌, Bool, true, false, not, ◌||◌, Option, none, some, List,
  [], ◌∷◌, arith, length, ◌==◌, if◌then◌else◌, Bool-cases, inl, inr, All, map,
}
use the_polling_express.Base.Outcome.{Outcome, ok, EndsIn, EndsIn-bind, EndsIn-map, ◌>>=◌}
use the_polling_express.Common.CircularBuffer.{CircularBuffer, cb_to_array}
use the_polling_express.Common.CircularBuffer.Refine.{length-contents}
use the_polling_express.User.Virtual.{max_num_trains}
use the_polling_express.User.Dispatchserver.{DispatchReply, triggered, in_array}
use the_polling_express.User.Dispatchserver.Scan.{clear_train, deliver}
use the_polling_express.User.Dispatchserver.Hits.{Carries, Holding, some_hit}
use the_polling_express.User.Dispatchserver.Attribution.{IsTrain}
use the_polling_express.User.Dispatchserver.Release.{
  release, reports, IsStaffed, clear_if, release-map, cleared, release-end, IsTrain-clear_if,
}

some_hit-length : (xs : List ℕ) → (length xs == 0) ≡ not (some_hit xs)
some_hit-length [] = refl
some_hit-length (x ∷ xs) = ground arith

Carries-count :
    (cb : CircularBuffer ℕ) (xs : List ℕ) → Carries cb xs → (cb.count == 0) ≡ not (some_hit xs)
Carries-count cb xs c =
    ap (λ n. n == 0) (sym (length-contents 0 cb) ∙ ap length c.items) ∙ some_hit-length xs

-- what the loop over the trains from `v` on ends with
abbrev pub Delivered :
    (ℕ → List ℕ)
    → List (Option ℕ)
    → ℕ
    → ℕ
    → List (Option ℕ)
    → List (Option ℕ) × Bool × List DispatchReply
    → Type 0
Delivered q ws v time ss (subscribers, changed, replies) =
    (subscribers ≡ map (release q v) ss) × (replies ≡ reports q ws v time)

module _ (q : ℕ → List ℕ) (time : ℕ) where
  reports-hit :
      (task : ℕ) (ws : List (Option ℕ)) (v : ℕ)
      → some_hit (q v) ≡ true
      → reports q (some task ∷ ws) v time ≡ triggered task (q v) time ∷ reports q ws (v + 1) time
  reports-hit task ws v hits = rw hits refl

  reports-quiet :
      (task : ℕ) (ws : List (Option ℕ)) (v : ℕ)
      → some_hit (q v) ≡ false
      → reports q (some task ∷ ws) v time ≡ reports q ws (v + 1) time
  reports-quiet task ws v quiet = rw quiet refl

  reported :
      (cb : CircularBuffer ℕ) (worker : Option ℕ) (ws : List (Option ℕ)) (v : ℕ)
      (ss ss' : List (Option ℕ)) (rest : Outcome (List (Option ℕ) × Bool × List DispatchReply))
      → Carries cb (q v)
      → IsStaffed q (worker ∷ ws) v
      → map (release q (v + 1)) ss' ≡ map (release q v) ss
      → EndsIn (Delivered q ws (v + 1) time ss') rest
      → EndsIn (Delivered q (worker ∷ ws) v time ss) (
          if cb.count == 0
          then rest
          else (in_array worker >>= λ task.
              rest >>= λ r. ok (r.0, r.1, triggered task (cb_to_array 0 cb) time ∷ r.2)))
  reported cb none ws v ss ss' rest c (quiet, staff) same h =
      let silent : (cb.count == 0) ≡ true = Carries-count cb (q v) c ∙ ap not quiet in
      rw silent (EndsIn-map _ _ rest (λ r d. (d.0 ∙ same, d.1)) h)
  reported cb (some task) ws v ss ss' rest c staff same h = elim (Bool-cases (some_hit (q v))) [
    | inl hits ↦
        let loud : (cb.count == 0) ≡ false = Carries-count cb (q v) c ∙ ap not hits in
        rw loud (
          EndsIn-bind _ _ rest _
            (λ r d. (
              d.0 ∙ same,
              ap₂ (λ l. ◌∷◌ (triggered task l time)) c.items (d.1)
                  ∙ sym (reports-hit task ws v hits),
            ))
            h)
    | inr quiet ↦
        let silent : (cb.count == 0) ≡ true = Carries-count cb (q v) c ∙ ap not quiet in
        rw silent
          (EndsIn-map _ _ rest (λ r d. (d.0 ∙ same, d.1 ∙ sym (reports-quiet task ws v quiet))) h)
  ]

  IsStaffed-rest :
      (w : Option ℕ) (ws : List (Option ℕ)) (v : ℕ)
      → IsStaffed q (w ∷ ws) v
      → IsStaffed q ws (v + 1)
  IsStaffed-rest none ws v staff = staff.1
  IsStaffed-rest (some task) ws v staff = staff

  pub deliver-Delivered :
      (v : ℕ) (cbs : List (CircularBuffer ℕ)) (ts : List Bool) (ws ss : List (Option ℕ))
      (changed : Bool)
      → Holding q v cbs ts
      → length ws ≡ length cbs
      → v + length cbs ≡ max_num_trains
      → IsStaffed q ws v
      → All IsTrain ss
      → EndsIn (Delivered q ws v time ss) (deliver cbs ts ws v time ss changed)
  unfolding deliver
  deliver-Delivered v [] ts [] ss changed held size six staff trains =
      (release-end q v ss (omega arith) trains, refl)
  deliver-Delivered v [] ts (w ∷ ws) ss changed held size six staff trains = absurd (omega arith)
  deliver-Delivered v (cb ∷ cbs) [] ws ss changed held size six staff trains = absurd held
  deliver-Delivered v (cb ∷ cbs) (t ∷ ts) [] ss changed held size six staff trains =
      absurd (omega arith)
  deliver-Delivered v (cb ∷ cbs) (t ∷ ts) (w ∷ ws) ss changed (c, e, held) size six staff trains =
      let next : v + 1 ≡ suc v = omega arith in
      let kept = map (clear_if t v) ss in
      let after : (if t then (clear_train v ss).0 else ss) ≡ kept = cleared v t ss in
      let changed' = if t then changed || (clear_train v ss).1 else changed in
      let same : map (release q (v + 1)) kept ≡ map (release q v) ss =
        rw next (release-map q v t ss e) in
      rw after (
        reported cb w ws v ss kept (deliver cbs ts ws (v + 1) time kept changed') c staff same (
          deliver-Delivered (v + 1) cbs ts ws kept changed' (rw next held) (omega arith)
            (omega arith) (IsStaffed-rest w ws v staff) (IsTrain-clear_if v t ss trains)))
