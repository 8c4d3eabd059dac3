-- ===== src/Common/CircularBuffer/Refine.antt =====
-- The operations of src/common/circularbuffer.c beside those of a queue of bounded length, oldest item
-- first.
use the_polling_express.Base.{
  ℕ, zero, suc, ◌+◌, ◌-◌, ◌≤◌, ◌<◌, ◌≡◌, ◌≢◌, refl, ap, ap₂, Bool, true, false, Option, none, some,
  List, [], ◌∷◌, ◌++◌, arith, inl, inr, Bool-cases, ==_iff, get_or, set, drop, length, length-set,
  length-replicate, get_elem?-some, get_or-set_self, get_or-set_ne, ltb, ◌==◌, if◌then◌else◌,
}
use the_polling_express.Common.CircularBuffer.{
  Status, done, cb_full, cb_empty, CircularBuffer, advance, store, cb_init, cb_pop_front,
  cb_push_back, copy_items, cb_to_array,
}

-- slot `k` of the unrolled storage
abbrev pub wrap : ℕ → ℕ → ℕ
wrap capacity k = if ltb k capacity then k else k - capacity

pub record IsValid {ℓ} {A : Type ℓ} (cb : CircularBuffer A) : Type 0 where
  pub storage : length cb.buffer ≡ cb.capacity
  pub room : 0 < cb.capacity
  pub tail_in : cb.tail < cb.capacity
  pub count_in : cb.count ≤ cb.capacity
  pub head_at : cb.head ≡ wrap cb.capacity (cb.tail + cb.count)

module _ {ℓ} {A : Type ℓ} (blank : A) where
  -- a write at the head appends to what the loop of `cb_to_array` copies
  copy_items-set :
      (buffer : List A) (capacity n cur at : ℕ) (x : A)
      → length buffer ≡ capacity
      → cur < capacity
      → n < capacity
      → at ≡ wrap capacity (cur + n)
      → copy_items blank (set buffer at x) capacity cur (suc n)
        ≡ copy_items blank buffer capacity cur n ++ x ∷ []
  unfolding copy_items
  copy_items-set buffer capacity zero cur at x hs hc hn e =
      let here : at ≡ cur = ground arith in
      rw here (ap (λ v. v ∷ []) (get_or-set_self blank buffer cur x (omega arith)))
  copy_items-set buffer capacity (suc n) cur at x hs hc hn e =
      ap₂ ◌∷◌ (get_or-set_ne blank buffer at cur x (λ q. ground arith)) (
        copy_items-set buffer capacity n (advance capacity cur) at x hs (ground arith) (omega arith)
          (ground arith))

  copy_items_pos :
      (buffer : List A) (capacity cur n : ℕ)
      → n ≢ 0
      → copy_items blank buffer capacity cur n
        ≡ get_or buffer cur blank ∷ copy_items blank buffer capacity (advance capacity cur) (n - 1)
  unfolding copy_items
  copy_items_pos buffer capacity cur zero h = absurd (h refl)
  copy_items_pos buffer capacity cur (suc n) h =
      ap (λ k. copy_items blank buffer capacity cur (suc k)) (omega arith)

  length-copy_items :
      (buffer : List A) (capacity cur n : ℕ) → length (copy_items blank buffer capacity cur n) ≡ n
  unfolding copy_items
  length-copy_items buffer capacity cur zero = refl
  length-copy_items buffer capacity cur (suc n) =
      ap suc (length-copy_items buffer capacity (advance capacity cur) n)

-- The specification: a queue that holds at most `capacity` items. A push on a full queue is refused,
-- or drops the oldest item if it is aggressive.
module _ {ℓ} {A : Type ℓ} where
  unfoldable pub queue_push : ℕ → List A → A → Bool → Status × List A
  queue_push capacity q x aggressive =
      if length q == capacity
      then (if aggressive then (done, drop 1 q ++ x ∷ []) else (cb_full, q))
      else (done, q ++ x ∷ [])

  unfoldable pub queue_pop : List A → Status × Option A × List A
  queue_pop [] = (cb_empty, none, [])
  queue_pop (x ∷ q) = (done, some x, q)

  -- the state after an aggressive push has dropped the oldest item
  abbrev dropped : CircularBuffer A → CircularBuffer A
  dropped cb = record cb { tail = advance cb.capacity cb.tail; count = cb.count - 1 }

module _ {A : Type 0} where
  -- `cb_push_back` keeps the invariant.
  pub cb_push_back-IsValid :
      (cb : CircularBuffer A) (x : A) (aggressive : Bool)
      → IsValid cb
      → IsValid (cb_push_back cb x aggressive).1
  unfolding cb_push_back
  cb_push_back-IsValid cb x aggressive v = ground (arith, length-set cb.buffer cb.head x)

  -- `cb_pop_front` keeps the invariant.
  pub cb_pop_front-IsValid : (cb : CircularBuffer A) → IsValid cb → IsValid (cb_pop_front cb).2
  unfolding cb_pop_front
  cb_pop_front-IsValid cb v = ground arith

module _ {A : Type 0} (blank : A) where
  abbrev pub contents : CircularBuffer A → List A
  contents cb = cb_to_array blank cb

  pub length-contents : (cb : CircularBuffer A) → length (contents cb) ≡ cb.count
  unfolding cb_to_array
  length-contents cb = length-copy_items blank cb.buffer cb.capacity cb.tail cb.count

  -- the statements behind the test append the item
  pub contents-store :
      (cb : CircularBuffer A) (x : A)
      → IsValid cb
      → cb.count < cb.capacity
      → contents (store cb x) ≡ contents cb ++ x ∷ []
  unfolding cb_to_array
  contents-store cb x v h =
      let one_more : cb.count + 1 ≡ suc cb.count = omega arith in
      rw one_more (
        copy_items-set blank cb.buffer cb.capacity cb.count cb.tail cb.head x v.storage v.tail_in h
          v.head_at)

  -- `cb_init` gives a valid buffer with nothing in it, and so does `cb_clear`.
  pub cb_init-IsValid :
      (capacity : ℕ)
      → 0 < capacity
      → IsValid (cb_init blank capacity) × (contents (cb_init blank capacity) ≡ [])
  unfolding cb_init cb_to_array
  cb_init-IsValid capacity h = (
    record {
      storage = length-replicate capacity blank;
      room = h;
      tail_in = h;
      count_in = omega arith;
      head_at = ground arith;
    },
    refl,
  )

  -- `cb_pop_front` answers as `queue_pop`, and leaves the rest of the queue.
  pub cb_pop_front_refines :
      (cb : CircularBuffer A)
      → IsValid cb
      → let (status, item, cb') = cb_pop_front cb in
        (status, item, contents cb') ≡ queue_pop (contents cb)
  unfolding cb_pop_front cb_to_array queue_pop
  cb_pop_front_refines cb v = ground (
    arith,
    copy_items_pos blank cb.buffer cb.capacity cb.tail cb.count,
    get_elem?-some blank cb.buffer cb.tail,
  )

  contents-dropped :
      (cb : CircularBuffer A)
      → IsValid cb
      → cb.count ≡ cb.capacity
      → contents (dropped cb) ≡ drop 1 (contents cb)
  unfolding cb_to_array
  contents-dropped cb v full =
      rw (copy_items_pos blank cb.buffer cb.capacity cb.tail cb.count (omega arith)) refl

  -- the two answers of a full buffer
  push_full :
      (cb : CircularBuffer A) (x : A) (aggressive : Bool)
      → IsValid cb
      → (cb.count == cb.capacity) ≡ true
      → let (status, cb') = cb_push_back cb x aggressive in
        ◌≡◌ {A = Status × List A}
          (status, contents cb')
          (if aggressive then (done, drop 1 (contents cb) ++ x ∷ []) else (cb_full, contents cb))
  unfolding cb_push_back
  push_full cb x false v full = rw full
  push_full cb x true v full =
      let full' : cb.count ≡ cb.capacity = (==_iff _ _).0 full in
      let pos : (cb.count == 0) ≡ false = ground arith in
      rw (full, pos, ← contents-dropped cb v full')
        (ap (λ q. (done, q))
          (contents-store (dropped cb) x
            (record {
              storage = v.storage;
              room = v.room;
              tail_in = ground arith;
              count_in = omega arith;
              head_at = ground arith;
            })
            (omega arith)))

  -- `cb_push_back` answers as `queue_push`, and leaves the queue that it gives.
  pub cb_push_back_refines :
      (cb : CircularBuffer A) (x : A) (aggressive : Bool)
      → IsValid cb
      → let (status, cb') = cb_push_back cb x aggressive in
        (status, contents cb') ≡ queue_push cb.capacity (contents cb) x aggressive
  unfolding queue_push
  cb_push_back_refines cb x aggressive v = elim (Bool-cases (cb.count == cb.capacity)) [
    | inl full ↦ rw (length-contents cb, full) (push_full cb x aggressive v full)
    | inr room ↦
        rw (length-contents cb, room)
          (unfold cb_push_back in
            rw room (ap (λ q. (done, q)) (contents-store cb x v (ground arith))))
  ]

  -- On a valid buffer `cb_push_back` and `cb_pop_front` answer as the push on the queue of its items and
  -- the pop from it do, leave that queue, and keep the buffer valid: a push appends, is refused when the
  -- queue is full, or drops the oldest item first if it is aggressive, and a pop gives the oldest item,
  -- or CB_EMPTY.
  pub push_pop-refines :
      (cb : CircularBuffer A) (x : A) (aggressive : Bool)
      → IsValid cb
      → let (pushed, cb1) = cb_push_back cb x aggressive in
        let (popped, item, cb2) = cb_pop_front cb in
        ((pushed, contents cb1) ≡ queue_push cb.capacity (contents cb) x aggressive)
        × ((popped, item, contents cb2) ≡ queue_pop (contents cb))
        × IsValid cb1
        × IsValid cb2
  push_pop-refines cb x aggressive v = (
    cb_push_back_refines cb x aggressive v,
    cb_pop_front_refines cb v,
    cb_push_back-IsValid cb x aggressive v,
    cb_pop_front-IsValid cb v,
  )
