-- ===== src/User/Nameserver.antt =====
-- src/user/nameserver.c: the server that keeps the task of each name, with the calls of
-- src/kernel/syscall.c that ask it. A name is the list of its bytes before the 0; `char` is unsigned
-- on the ARM target, and a task id is an `int`, which the table keeps as a number below 2^32.
pub mod Answers
mod Tests
use the_polling_express.Base.{
  ℕ, suc, ◌+◌, ◌-◌, ◌*◌, ◌/◌, ◌%◌, Option, none, some, List, [], ◌∷◌, ◌++◌, get_or, take, replicate,
  ltb, leb, ◌==◌, ◌||◌, if◌then◌else◌,
}
use Prim.Native.Nat.{min}
use the_polling_express.Base.Int.{ℤ, pos, negsuc}
use the_polling_express.Base.Outcome.{Outcome, ok, ◌>>=◌, ◌>>◌, kassert}
use the_polling_express.Common.Hashtable.{Hashtable, e_key_missing, ht_init, ht_insert, ht_get}
use the_polling_express.Common.MyString.{strlen}

abbrev pub max_body_length : ℕ
max_body_length = 128

abbrev pub max_names : ℕ
max_names = 1000

abbrev pub e_collision : ℕ
e_collision = 1

-- The requests are those of the two calls below.
pub data NameserverRequestType : Type 0 where
  register_as_request who_is_request : NameserverRequestType

-- A response's type is an `int`, and `response_other` any number but the two of the header.
pub data NameserverResponseType : Type 0 where
  response_good response_name_dne response_other : NameserverResponseType

pub record NameserverRequest : Type 0 where
  pub type : NameserverRequestType
  pub body : List ℕ
  pub body_length : ℕ

pub record NameserverResponse : Type 0 where
  pub type : NameserverResponseType
  pub body : List ℕ
  pub body_length : ℕ

-- a message's array behind `memset` and `memcpy`
unfoldable pub body_of : List ℕ → ℕ → List ℕ
body_of body body_length =
    let n = min max_body_length body_length in take n body ++ replicate (max_body_length - n) 0

unfoldable pub nameserver_request_init :
    NameserverRequestType → List ℕ → ℕ → Outcome NameserverRequest
unfolding body_of
nameserver_request_init type body body_length = do
  kassert (ltb body_length max_body_length)
  ok (record { type = type; body = body_of body body_length; body_length = body_length })

unfoldable pub nameserver_response_init :
    NameserverResponseType → List ℕ → ℕ → Outcome NameserverResponse
unfolding body_of
nameserver_response_init type body body_length = do
  kassert (ltb body_length max_body_length)
  ok (record { type = type; body = body_of body body_length; body_length = body_length })

-- the bytes of a character array before its first 0
unfoldable pub string_at : List ℕ → List ℕ
string_at [] = []
string_at (c ∷ body) = if c == 0 then [] else c ∷ string_at body

-- an `int` of 32 bits
unfoldable pub int_of : ℕ → ℤ
int_of n =
    let word = n % 0x100000000 in
    if ltb word 0x80000000 then pos word else negsuc (0x100000000 - word - 1)

-- The bytes shifted to their places have no bit in common, so `|` adds them.
unfoldable pub get_tid_from_nameserver_response : NameserverResponse → Outcome ℤ
unfolding int_of
get_tid_from_nameserver_response rs = do
  kassert (leb 4 rs.body_length)
  ok (
      int_of (
        get_or rs.body 0 0 * 0x1000000
        + get_or rs.body 1 0 * 0x10000
        + get_or rs.body 2 0 * 0x100
        + get_or rs.body 3 0))

-- the first entries of `response_body`, with the shifts and masks as division and remainder
unfoldable pub tid_bytes : ℕ → List ℕ
tid_bytes lookup_tid =
    lookup_tid / 0x1000000 % 0x100
    ∷ lookup_tid / 0x10000 % 0x100
    ∷ lookup_tid / 0x100 % 0x100
    ∷ lookup_tid % 0x100
    ∷ []

unfoldable pub nameserver_start : Hashtable
unfolding ht_init
nameserver_start = ht_init max_names

-- One round of the server for a request of the task `who`: the table left, and the reply. `rt` and
-- `lookup_tid` have no initial value: `junk_type` and `junk_tid` are what they hold. `response_body`
-- matters in its first `body_len` bytes only.
module _ (junk_type : NameserverResponseType) (junk_tid : ℕ) where
  unfoldable pub insert_status : ℕ → NameserverResponseType
  insert_status ht_status =
      if ht_status == 0 || ht_status == e_collision then response_good else junk_type

  unfoldable pub get_status : ℕ → NameserverResponseType
  get_status ht_status =
      if ht_status == 0
      then response_good
      else if ht_status == e_key_missing
      then response_name_dne
      else junk_type

  unfoldable pub found_tid : Option ℕ → ℕ
  found_tid none = junk_tid
  found_tid (some tid) = tid

  unfoldable pub nameserver_round :
      Hashtable → ℕ → NameserverRequest → Outcome (Hashtable × NameserverResponse)
  unfolding nameserver_response_init string_at tid_bytes insert_status get_status found_tid
      ht_insert ht_get
  nameserver_round ht who request = elim request.type [
    | register_as_request ↦
        let (ht_status, ht') = ht_insert ht (string_at request.body) who in
        do response ← nameserver_response_init (insert_status ht_status) [] 0; ok (ht', response)
    | who_is_request ↦
        let (ht_status, found) = ht_get ht (string_at request.body) in
        do
          response ← nameserver_response_init (get_status ht_status) (tid_bytes (found_tid found)) 4
          ok (ht, response)
  ]

-- what `WhoIs` makes of the response; there is none where `Send` returns -1
unfoldable pub who_is_result : Option NameserverResponse → Outcome ℤ
unfolding get_tid_from_nameserver_response
who_is_result none = ok (negsuc 0)
who_is_result (some response) = elim response.type [
  | response_good ↦ get_tid_from_nameserver_response response
  | response_name_dne ↦ ok (negsuc 1)
  | response_other ↦ ok (negsuc 2)
]

-- The calls. `send` is the system call to the server, from one state of the server to the next.
module _ {S : Type 0} (send : S → NameserverRequest → Outcome (Option NameserverResponse × S)) where
  unfoldable pub who_is : S → List ℕ → Outcome (ℤ × S)
  unfolding nameserver_request_init strlen who_is_result
  who_is s name = do
    rq ← nameserver_request_init who_is_request (name ++ 0 ∷ []) (strlen name + 1)
    (response, s') ← send s rq
    result ← who_is_result response
    ok (result, s')

  unfoldable pub register_as : S → List ℕ → Outcome (ℤ × S)
  unfolding nameserver_request_init strlen
  register_as s name = do
    rq ← nameserver_request_init register_as_request (name ++ 0 ∷ []) (strlen name + 1)
    (response, s') ← send s rq
    ok (elim response [ none ↦ negsuc 0 | some _ ↦ pos 0 ], s')
