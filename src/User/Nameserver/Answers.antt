-- ===== src/User/Nameserver/Answers.antt =====
-- The calls of src/kernel/syscall.c beside the table of src/user/nameserver.c.
use native.Mathlib.Nat.{mod-lt}
use Prim.Native.Nat.{min}
use the_polling_express.Base.{
  ℕ, suc, ◌+◌, ◌-◌, ◌*◌, ◌/◌, ◌%◌, ◌<◌, ◌≡◌, refl, ap, true, false, Option, some, List, [], ◌∷◌,
  ◌++◌, All, length, get_or, get_or-set_self, set, take, replicate, ltb, ◌==◌, Bool-cases, inl, inr,
  arith, if◌then◌else◌,
}
use the_polling_express.Base.Int.{ℤ, pos, negsuc}
use the_polling_express.Base.Outcome.{Outcome, ok, ◌>>=◌}
use the_polling_express.Common.Hashtable.{Hashtable, hash_loop, hash_function, ht_insert, ht_get}
use the_polling_express.Common.Hashtable.Lookup.{inserted, latest, shape, stored}
use the_polling_express.Common.MyString.{strlen}
use the_polling_express.User.Nameserver.{
  max_body_length, max_names, NameserverResponseType, NameserverRequest, NameserverResponse,
  body_of, nameserver_request_init, nameserver_response_init, string_at, int_of, nameserver_start,
  insert_status, get_status, found_tid, nameserver_round, who_is, register_as,
}

-- A name has no 0 byte, and the message has room for it and its 0.
abbrev pub IsName : List ℕ → Type 0
IsName name = All (λ c. 0 < c) name × (length name < 127)

strlen-length : (name : List ℕ) → strlen name ≡ length name
unfolding strlen
strlen-length [] = refl
strlen-length (c ∷ name) = ap suc (strlen-length name)

string_at-take :
    (name pad : List ℕ)
    → All (λ c. 0 < c) name
    → string_at (take (suc (length name)) (name ++ 0 ∷ []) ++ pad) ≡ name
unfolding string_at
string_at-take [] pad h = refl
string_at-take (c ∷ name) pad (pos_c, h) =
    let no_end : (c == 0) ≡ false = ground arith in
    rw no_end (ap (◌∷◌ c) (string_at-take name pad h))

-- the server reads the name that a call writes
string_at-body_of :
    (name : List ℕ) → IsName name → string_at (body_of (name ++ 0 ∷ []) (strlen name + 1)) ≡ name
unfolding body_of
string_at-body_of name (h, fits) =
    let short : min max_body_length (length name + 1) ≡ suc (length name) = omega arith in
    rw (strlen-length name, short)
      (string_at-take name (replicate (max_body_length - suc (length name)) 0) h)

-- the four bytes of a number give it back
bytes_sum :
    (tid : ℕ)
    → tid < 0x80000000
    → tid / 0x1000000 % 0x100 * 0x1000000
        + tid / 0x10000 % 0x100 * 0x10000
        + tid / 0x100 % 0x100 * 0x100
        + tid % 0x100
      ≡ tid
bytes_sum tid small = omega arith

int_of_small : (tid : ℕ) → tid < 0x80000000 → int_of tid ≡ pos tid
unfolding int_of
int_of_small tid small =
    let same : tid % 0x100000000 ≡ tid = omega arith in
    let below : ltb tid 0x80000000 ≡ true = ground arith in rw (same, below) refl

room_for : (name : List ℕ) → IsName name → ltb (strlen name + 1) max_body_length ≡ true
room_for name (h, fits) = ground (arith, strlen-length name)

-- what `WhoIs` returns for a value of the table
abbrev pub answer_of : ℕ → ℤ
answer_of tid = if tid == 0 then negsuc 1 else pos tid

module _ (junk_type : NameserverResponseType) (junk_tid : ℕ) where
  -- a call of the task `caller`, to the server that is up
  abbrev pub sent_by :
      ℕ → Hashtable → NameserverRequest → Outcome (Option NameserverResponse × Hashtable)
  sent_by caller ht rq = do
    (ht', response) ← nameserver_round junk_type junk_tid ht caller rq
    ok (some response, ht')

  register_as_lem :
      (caller : ℕ) (ht : Hashtable) (name : List ℕ)
      → IsName name
      → register_as (sent_by caller) ht name ≡ ok (pos 0, (ht_insert ht name caller).1)
  unfolding register_as nameserver_request_init nameserver_round insert_status
      nameserver_response_init ht_insert
  register_as_lem caller ht name v = rw (room_for name v, string_at-body_of name v) refl

  who_is_lem :
      (caller : ℕ) (ht : Hashtable) (name : List ℕ)
      → IsName name
      → get_or ht.arr (hash_function ht name) 0 < 0x80000000
      → who_is (sent_by caller) ht name
        ≡ ok (answer_of (get_or ht.arr (hash_function ht name) 0), ht)
  unfolding who_is nameserver_request_init nameserver_round get_status found_tid ht_get
  who_is_lem caller ht name v small =
      elim (Bool-cases (get_or ht.arr (hash_function ht name) 0 == 0)) [
        | inl null ↦ rw (room_for name v, string_at-body_of name v, null) refl
        | inr present ↦
            rw
              (
                room_for name v,
                string_at-body_of name v,
                present,
                bytes_sum (get_or ht.arr (hash_function ht name) 0) small,
                int_of_small (get_or ht.arr (hash_function ht name) 0) small,
              )
              refl
      ]

  -- In any table with an entry for each hash, a WhoIs behind a RegisterAs of the same name, by a task
  -- whose id is greater than 0, returns that id.
  pub who_is-register_as :
      (caller tid : ℕ) (ht : Hashtable) (name : List ℕ)
      → IsName name
      → 0 < tid
      → tid < 0x80000000
      → 0 < ht.capacity
      → length ht.arr ≡ ht.capacity
      → (register_as (sent_by tid) ht name >>= λ (_, ht'). who_is (sent_by caller) ht' name)
        ≡ ok (pos tid, (ht_insert ht name tid).1)
  unfolding ht_insert hash_function
  who_is-register_as caller tid ht name v tid_pos small room size =
      let index = hash_function ht name in
      let inside : index < length ht.arr = rw size (mod-lt (hash_loop 5381 name) room) in
      let found : get_or (set ht.arr index tid) index 0 ≡ tid =
        get_or-set_self 0 ht.arr index tid inside in
      let real : (tid == 0) ≡ false = ground arith in
      let answered : who_is (sent_by caller) (ht_insert ht name tid).1 name
          ≡ ok (answer_of tid, (ht_insert ht name tid).1) =
        rw found at (who_is_lem caller (ht_insert ht name tid).1 name v (rw found small)) in
      rw (register_as_lem tid ht name v, answered, real) refl

  -- the table behind the calls of a list of names and tasks, the last one of the list first
  abbrev pub registered : List (List ℕ × ℕ) → Outcome Hashtable
  registered [] = ok nameserver_start
  registered ((name, tid) ∷ earlier) = do
    ht ← registered earlier
    (_, ht') ← register_as (sent_by tid) ht name
    ok ht'

  abbrev pub IsEntry : List ℕ × ℕ → Type 0
  IsEntry (name, tid) = IsName name × (tid < 0x80000000)

  registered-inserted :
      (all : List (List ℕ × ℕ)) → All IsEntry all → registered all ≡ ok (inserted max_names all)
  unfolding nameserver_start inserted
  registered-inserted [] v = refl
  registered-inserted ((name, tid) ∷ earlier) ((v, small), rest) =
      rw (registered-inserted earlier rest, register_as_lem tid (inserted max_names earlier) name v)
        refl

  latest_small :
      (capacity h : ℕ) (all : List (List ℕ × ℕ))
      → All IsEntry all
      → latest capacity h all < 0x80000000
  latest_small capacity h [] v = omega arith
  latest_small capacity h ((name, tid) ∷ earlier) ((v, small), rest) =
      elim (Bool-cases (hash_loop 5381 name % capacity == h)) [
        | inl here ↦ rw here small
        | inr before ↦ rw before (latest_small capacity h earlier rest)
      ]

  -- Once the name server has served any calls of RegisterAs with names that fit, a WhoIs returns the
  -- task of the last call whose name has the same hash, or -2 if there is none or its task is 0.
  pub who_is-latest :
      (caller : ℕ) (all : List (List ℕ × ℕ)) (name : List ℕ)
      → All IsEntry all
      → IsName name
      → (registered all >>= λ ht. who_is (sent_by caller) ht name)
        ≡ ok (
          answer_of (latest max_names (hash_loop 5381 name % max_names) all),
          inserted max_names all,
        )
  unfolding hash_function
  who_is-latest caller all name entries v =
      let ht = inserted max_names all in
      let size = (shape max_names all).0 in
      let value : get_or ht.arr (hash_function ht name) 0
          ≡ latest max_names (hash_loop 5381 name % max_names) all =
        rw size (stored max_names (hash_loop 5381 name % max_names) all (omega arith)) in
      let small : get_or ht.arr (hash_function ht name) 0 < 0x80000000 =
        rw value (latest_small max_names (hash_loop 5381 name % max_names) all entries) in
      rw (registered-inserted all entries) (rw value at (who_is_lem caller ht name v small))
