-- ===== src/User/Dispatchserver/Hits.antt =====
-- src/user/dispatchserver.c: the buffers of the triggered sensors, one for each train.
use the_polling_express.Base.{
  ℕ, zero, suc, ◌+◌, ◌<◌, ◌≡◌, refl, sym, ap, ◌∙◌, Bool, true, false, some, List, [], ◌∷◌, ◌++◌,
  arith, get_elem?, set, length, ◌==◌, if◌then◌else◌, length-set,
}
use the_polling_express.Base.Outcome.{EndsIn}
use the_polling_express.Common.CircularBuffer.{CircularBuffer, cb_init, cb_push_back, cb_to_array}
use the_polling_express.Common.CircularBuffer.Refine.{
  IsValid, cb_push_back-IsValid, contents-store, length-contents, cb_init-IsValid,
}
use the_polling_express.User.Virtual.{max_num_trains}
use the_polling_express.User.Dispatchserver.{max_subscribed_sensors}
use the_polling_express.User.Dispatchserver.Scan.{Hits, hit, no_hits, not_full}

-- a buffer with the items of a list
pub record Carries (cb : CircularBuffer ℕ) (xs : List ℕ) : Type 0 where
  pub valid : IsValid cb
  pub items : cb_to_array 0 cb ≡ xs
  pub capacity : cb.capacity ≡ max_subscribed_sensors

abbrev pub some_hit : List ℕ → Bool
some_hit [] = false
some_hit (x ∷ xs) = true

-- The buffers of the trains from `v` on carry the sensors that `q` gives, and each of the other entries
-- tells whether there are some.
abbrev pub Holding : (ℕ → List ℕ) → ℕ → List (CircularBuffer ℕ) → List Bool → Type 0
Holding q v [] [] = Unit
Holding q v [] (t ∷ ts) = ⊥
Holding q v (cb ∷ cbs) [] = ⊥
Holding q v (cb ∷ cbs) (t ∷ ts) = Carries cb (q v) × (t ≡ some_hit (q v)) × Holding q (suc v) cbs ts

pub Holding-ext :
    (q q' : ℕ → List ℕ) (v : ℕ) (cbs : List (CircularBuffer ℕ)) (ts : List Bool)
    → ((w : ℕ) → q w ≡ q' w)
    → Holding q v cbs ts
    → Holding q' v cbs ts
Holding-ext q q' v [] [] e h = tt
Holding-ext q q' v [] (t ∷ ts) e h = absurd h
Holding-ext q q' v (cb ∷ cbs) [] e h = absurd h
Holding-ext q q' v (cb ∷ cbs) (t ∷ ts) e h =
    (rw (← e v) (h.0), rw (← e v) (h.1), Holding-ext q q' (suc v) cbs ts e (h.2))

-- The train `n` has the entry `k` from `v` on.
Holding-get :
    (q : ℕ → List ℕ) (n v k : ℕ) (cbs : List (CircularBuffer ℕ)) (ts : List Bool)
    → n ≡ v + k
    → k < length cbs
    → Holding q v cbs ts
    → (cb : CircularBuffer ℕ) × (get_elem? cbs k ≡ some cb) × Carries cb (q n)
Holding-get q n v k [] ts e lt h = absurd (omega arith)
Holding-get q n v zero (cb ∷ cbs) [] e lt h = absurd h
Holding-get q n v zero (cb ∷ cbs) (t ∷ ts) e lt h =
    let here : n ≡ v = omega arith in (cb, refl, rw here (h.0))
Holding-get q n v (suc k) (cb ∷ cbs) [] e lt h = absurd h
Holding-get q n v (suc k) (cb ∷ cbs) (t ∷ ts) e lt h =
    Holding-get q n (suc v) k cbs ts (omega arith) (omega arith) (h.2)

abbrev pub update : (ℕ → List ℕ) → ℕ → List ℕ → ℕ → List ℕ
update q k xs w = if k == w then xs else q w

Holding-later :
    (q : ℕ → List ℕ) (xs : List ℕ) (k v : ℕ) (cbs : List (CircularBuffer ℕ)) (ts : List Bool)
    → k < v
    → Holding q v cbs ts
    → Holding (update q k xs) v cbs ts
Holding-later q xs k v [] [] lt h = tt
Holding-later q xs k v [] (t ∷ ts) lt h = absurd h
Holding-later q xs k v (cb ∷ cbs) [] lt h = absurd h
Holding-later q xs k v (cb ∷ cbs) (t ∷ ts) lt h =
    let other : (k == v) ≡ false = ground arith in
    (rw other (h.0), rw other (h.1), Holding-later q xs k (suc v) cbs ts (omega arith) (h.2))

Holding-set :
    (q : ℕ → List ℕ) (xs : List ℕ) (cb' : CircularBuffer ℕ) (n v k : ℕ)
    (cbs : List (CircularBuffer ℕ)) (ts : List Bool)
    → n ≡ v + k
    → k < length cbs
    → Carries cb' xs
    → some_hit xs ≡ true
    → Holding q v cbs ts
    → Holding (update q n xs) v (set cbs k cb') (set ts k true)
Holding-set q xs cb' n v k [] ts e lt c hits h = absurd (omega arith)
Holding-set q xs cb' n v zero (cb ∷ cbs) [] e lt c hits h = absurd h
Holding-set q xs cb' n v zero (cb ∷ cbs) (t ∷ ts) e lt c hits h =
    let here : (n == v) ≡ true = ground arith in
    (rw here c, rw here (sym hits), Holding-later q xs n (suc v) cbs ts (omega arith) (h.2))
Holding-set q xs cb' n v (suc k) (cb ∷ cbs) [] e lt c hits h = absurd h
Holding-set q xs cb' n v (suc k) (cb ∷ cbs) (t ∷ ts) e lt c hits h =
    let other : (n == v) ≡ false = ground arith in
    let rest = Holding-set q xs cb' n (suc v) k cbs ts (omega arith) (omega arith) c hits (h.2) in
    (rw other (h.0), rw other (h.1), rest)

snoc-some : (xs : List ℕ) (x : ℕ) → some_hit (xs ++ x ∷ []) ≡ true
snoc-some [] x = refl
snoc-some (y ∷ ys) x = refl

push-Carries :
    (cb : CircularBuffer ℕ) (xs : List ℕ) (i : ℕ)
    → Carries cb xs
    → length xs < max_subscribed_sensors
    → (not_full ((cb_push_back cb i false).0) ≡ true)
      × Carries ((cb_push_back cb i false).1) (xs ++ i ∷ [])
unfolding cb_push_back not_full
push-Carries cb xs i c room =
    let size : cb.count < cb.capacity =
      omega (arith, length-contents 0 cb, ap length c.items, c.capacity) in
    let open_slot : (cb.count == cb.capacity) ≡ false = ground arith in
    let stored = cb_push_back-IsValid cb i false c.valid in
    rw (open_slot) (
      refl,
      record {
        valid = rw open_slot at stored;
        items = contents-store 0 cb i c.valid size ∙ ap (λ l. l ++ i ∷ []) c.items;
        capacity = c.capacity;
      },
    )

-- A hit for a train whose buffer has room puts the sensor behind those of the train.
pub hit-Holding :
    (q : ℕ → List ℕ) (h : Hits) (i v : ℕ)
    → Holding q 0 h.sensor_attribution h.triggering_trains
    → v < length h.sensor_attribution
    → length (q v) < max_subscribed_sensors
    → EndsIn
        (λ h'.
          Holding (update q v (q v ++ i ∷ [])) 0 h'.sensor_attribution h'.triggering_trains
          × (length h'.sensor_attribution ≡ length h.sensor_attribution))
        (hit h i v)
unfolding hit
hit-Holding q h i v held lt room =
    let (cb, e, c) =
      Holding-get q v 0 v h.sensor_attribution h.triggering_trains (omega arith) lt held in
    let (ok_status, pushed) = push-Carries cb (q v) i c room in
    rw (e, ok_status)
      (
        Holding-set q (q v ++ i ∷ []) ((cb_push_back cb i false).1) v 0 v h.sensor_attribution
            h.triggering_trains (omega arith) lt pushed (snoc-some (q v) i) held,
        length-set h.sensor_attribution v ((cb_push_back cb i false).1),
      )

pub no_hits-Holding :
    Holding (λ v. []) 0 no_hits.sensor_attribution no_hits.triggering_trains
    × (length no_hits.sensor_attribution ≡ max_num_trains)
unfolding no_hits cb_init
no_hits-Holding =
    let init = cb_init-IsValid 0 max_subscribed_sensors (omega arith) in
    let c : Carries (cb_init 0 max_subscribed_sensors) [] = record {
      valid = init.0;
      items = init.1;
      capacity = refl;
    } in
    ((c, refl, (c, refl, (c, refl, (c, refl, (c, refl, (c, refl, tt)))))), refl)
