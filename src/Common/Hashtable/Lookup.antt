-- ===== src/Common/Hashtable/Lookup.antt =====
-- What a lookup in the table of src/common/hashtable.c finds after a sequence of insertions.
use native.Mathlib.Nat.{mod-lt}
use the_polling_express.Base.{
  ℕ, ◌%◌, ◌<◌, ◌≡◌, refl, ◌∙◌, none, some, List, [], ◌∷◌, get_or, get_or-set, get_or-replicate,
  length, length-set, length-replicate, ◌==◌, if◌then◌else◌,
}
use the_polling_express.Common.Hashtable.{
  Hashtable, e_key_missing, hash_loop, hash_function, ht_init, ht_insert, ht_get,
}

-- the insertions of a list of keys and values, the last one of the list first
unfoldable pub inserted : ℕ → List (List ℕ × ℕ) → Hashtable
unfolding ht_init ht_insert
inserted capacity [] = ht_init capacity
inserted capacity ((key, value) ∷ earlier) = (ht_insert (inserted capacity earlier) key value).1

-- the value of the last insertion whose key has the hash, or NULL
abbrev pub latest : ℕ → ℕ → List (List ℕ × ℕ) → ℕ
latest capacity h [] = 0
latest capacity h ((key, value) ∷ earlier) =
    if hash_loop 5381 key % capacity == h then value else latest capacity h earlier

pub shape :
    (capacity : ℕ) (all : List (List ℕ × ℕ))
    → ((inserted capacity all).capacity ≡ capacity)
      × (length (inserted capacity all).arr ≡ capacity)
unfolding inserted
shape capacity [] = (refl, length-replicate capacity 0)
shape capacity ((key, value) ∷ earlier) =
    let (e, f) = shape capacity earlier in
    (
      e,
      length-set (inserted capacity earlier).arr (hash_function (inserted capacity earlier) key)
            value
          ∙ f,
    )

pub stored :
    (capacity h : ℕ) (all : List (List ℕ × ℕ))
    → 0 < capacity
    → get_or (inserted capacity all).arr h 0 ≡ latest capacity h all
unfolding inserted hash_function
stored capacity h [] pos = get_or-replicate 0 capacity h
stored capacity h ((key, value) ∷ earlier) pos =
    let (e, f) = shape capacity earlier in
    let before = inserted capacity earlier in
    get_or-set 0 before.arr (hash_loop 5381 key % before.capacity) h value
      (rw (f, e) (mod-lt (hash_loop 5381 key) pos))
    ∙ rw (e, stored capacity h earlier pos) refl

-- In a table with a positive capacity, a lookup after any insertions finds the value of the last one
-- whose key has the same hash, and the key is missing if there is none or that value is NULL.
pub ht_get-latest :
    (capacity : ℕ) (all : List (List ℕ × ℕ)) (key : List ℕ)
    → 0 < capacity
    → ht_get (inserted capacity all) key ≡ (
        if latest capacity (hash_loop 5381 key % capacity) all == 0
        then (e_key_missing, none)
        else (0, some (latest capacity (hash_loop 5381 key % capacity) all)))
unfolding ht_get hash_function
ht_get-latest capacity all key pos =
    rw ((shape capacity all).0, stored capacity (hash_loop 5381 key % capacity) all pos) refl
