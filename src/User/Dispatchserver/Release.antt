-- ===== src/User/Dispatchserver/Release.antt =====
-- src/user/dispatchserver.c: how the loop over the trains takes subscriptions away.
use the_polling_express.Base.{
  ℕ, suc, ◌+◌, ◌≡◌, refl, ap, ap₂, Bool, true, false, ◌&&◌, Option, none, some, List, [], ◌∷◌,
  arith, ◌==◌, if◌then◌else◌, Bool-cases, inl, inr, All, map, leb,
}
use the_polling_express.User.Virtual.{max_num_trains}
use the_polling_express.User.Dispatchserver.{DispatchReply, triggered}
use the_polling_express.User.Dispatchserver.Scan.{is_subscriber, clear_train}
use the_polling_express.User.Dispatchserver.Hits.{some_hit}
use the_polling_express.User.Dispatchserver.Attribution.{IsTrain}

-- The specification: the trains from `v` on with a triggered sensor lose their subscriptions, ...
unfoldable pub release : (ℕ → List ℕ) → ℕ → Option ℕ → Option ℕ
release q v none = none
release q v (some w) = if leb v w && some_hit (q w) then none else some w

-- ... and their workers are told their sensors.
abbrev pub reports : (ℕ → List ℕ) → List (Option ℕ) → ℕ → ℕ → List DispatchReply
reports q [] v time = []
reports q (none ∷ ws) v time = reports q ws (v + 1) time
reports q (some task ∷ ws) v time =
    let rest = reports q ws (v + 1) time in
    if some_hit (q v) then triggered task (q v) time ∷ rest else rest

-- a train with a triggered sensor has a worker
abbrev pub IsStaffed : (ℕ → List ℕ) → List (Option ℕ) → ℕ → Type 0
IsStaffed q [] v = Unit
IsStaffed q (none ∷ ws) v = (some_hit (q v) ≡ false) × IsStaffed q ws (v + 1)
IsStaffed q (some task ∷ ws) v = IsStaffed q ws (v + 1)

abbrev pub clear : ℕ → Option ℕ → Option ℕ
clear v s = if is_subscriber v s then none else s

clear_train-map : (v : ℕ) (ss : List (Option ℕ)) → (clear_train v ss).0 ≡ map (clear v) ss
unfolding clear_train
clear_train-map v [] = refl
clear_train-map v (s ∷ ss) = elim (Bool-cases (is_subscriber v s)) [
  | inl it ↦ rw it (ap (◌∷◌ none) (clear_train-map v ss))
  | inr other ↦ rw other (ap (◌∷◌ s) (clear_train-map v ss))
]

-- what the round of the train `v` does to an entry
abbrev pub clear_if : Bool → ℕ → Option ℕ → Option ℕ
clear_if true v s = clear v s
clear_if false v s = s

release-later :
    (q : ℕ → List ℕ) (v w : ℕ)
    → (w == v) ≡ false
    → release q (suc v) (some w) ≡ release q v (some w)
unfolding release
release-later q v w other = let same : leb (suc v) w ≡ leb v w = ground arith in rw same refl

release-here :
    (q : ℕ → List ℕ) (v : ℕ) (t : Bool)
    → t ≡ some_hit (q v)
    → release q (suc v) (clear_if t v (some v)) ≡ release q v (some v)
unfolding release is_subscriber
release-here q v true e =
    let it : (v == v) ≡ true = ground arith in
    let from : leb v v ≡ true = ground arith in rw (it, from, ← e) refl
release-here q v false e =
    let past : leb (suc v) v ≡ false = ground arith in
    let from : leb v v ≡ true = ground arith in rw (past, from, ← e) refl

clear_if-other : (t : Bool) (v w : ℕ) → (w == v) ≡ false → clear_if t v (some w) ≡ some w
unfolding is_subscriber
clear_if-other true v w other = rw other refl
clear_if-other false v w other = refl

clear_if-none : (t : Bool) (v : ℕ) → clear_if t v none ≡ none
unfolding is_subscriber
clear_if-none true v = refl
clear_if-none false v = refl

release-step :
    (q : ℕ → List ℕ) (v : ℕ) (t : Bool) (s : Option ℕ)
    → t ≡ some_hit (q v)
    → release q (suc v) (clear_if t v s) ≡ release q v s
release-step q v t none e = rw (clear_if-none t v) (unfold release in refl)
release-step q v t (some w) e = elim (Bool-cases (w == v)) [
  | inl it ↦ (let here : w ≡ v = ground arith in rw here (release-here q v t e))
  | inr other ↦ rw (clear_if-other t v w other) (release-later q v w other)
]

pub release-map :
    (q : ℕ → List ℕ) (v : ℕ) (t : Bool) (ss : List (Option ℕ))
    → t ≡ some_hit (q v)
    → map (release q (suc v)) (map (clear_if t v) ss) ≡ map (release q v) ss
release-map q v t [] e = refl
release-map q v t (s ∷ ss) e = ap₂ ◌∷◌ (release-step q v t s e) (release-map q v t ss e)

-- the entries behind the round of the train `v`
pub cleared :
    (v : ℕ) (t : Bool) (ss : List (Option ℕ))
    → (if t then (clear_train v ss).0 else ss) ≡ map (clear_if t v) ss
cleared v true ss = clear_train-map v ss
cleared v false [] = refl
cleared v false (s ∷ ss) = ap (◌∷◌ s) (cleared v false ss)

pub release-end :
    (q : ℕ → List ℕ) (v : ℕ) (ss : List (Option ℕ))
    → v ≡ max_num_trains
    → All IsTrain ss
    → ss ≡ map (release q v) ss
unfolding release
release-end q v [] e trains = refl
release-end q v (none ∷ ss) e trains = ap (◌∷◌ none) (release-end q v ss e (trains.1))
release-end q v (some w ∷ ss) e trains =
    let past : leb v w ≡ false = ground (arith, trains.0) in
    rw past (ap (◌∷◌ (some w)) (release-end q v ss e (trains.1)))

pub IsTrain-clear_if :
    (v : ℕ) (t : Bool) (ss : List (Option ℕ)) → All IsTrain ss → All IsTrain (map (clear_if t v) ss)
IsTrain-clear_if v t [] trains = tt
IsTrain-clear_if v false (s ∷ ss) (h, trains) = (h, IsTrain-clear_if v false ss trains)
IsTrain-clear_if v true (s ∷ ss) (h, trains) = elim (Bool-cases (is_subscriber v s)) [
  | inl it ↦ rw it (tt, IsTrain-clear_if v true ss trains)
  | inr other ↦ rw other (h, IsTrain-clear_if v true ss trains)
]
