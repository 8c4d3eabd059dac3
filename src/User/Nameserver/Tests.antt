-- ===== src/User/Nameserver/Tests.antt =====
-- src/user/nameserver.c and its calls at concrete inputs.
use the_polling_express.Base.{
  ℕ, ◌%◌, ◌<◌, ◌≡◌, refl, List, [], ◌∷◌, arith, length, length-replicate, replicate,
}
use the_polling_express.Base.Int.{pos, negsuc}
use the_polling_express.Base.Outcome.{ok, ◌>>=◌, assert_failed}
use the_polling_express.Common.Hashtable.{hash_loop}
use the_polling_express.Common.Hashtable.Lookup.{inserted, latest}
use the_polling_express.User.Nameserver.{
  max_names, response_other, who_is_request, nameserver_start, nameserver_round,
  nameserver_request_init, who_is, register_as, int_of,
}
use the_polling_express.User.Nameserver.Answers.{
  IsName, sent_by, answer_of, registered, who_is-latest,
}

-- "shell" and "clock"
abbrev shell : List ℕ
shell = 115 ∷ 104 ∷ 101 ∷ 108 ∷ 108 ∷ []

abbrev clock : List ℕ
clock = 99 ∷ 108 ∷ 111 ∷ 99 ∷ 107 ∷ []

abbrev entries : List (List ℕ × ℕ)
entries = (clock, 258) ∷ (shell, 4) ∷ (clock, 3) ∷ []

shell-IsName : IsName shell
shell-IsName = omega arith

clock-IsName : IsName clock
clock-IsName = omega arith

lookup_after :
    (registered response_other 77 entries >>= λ ht. who_is (sent_by response_other 77 9) ht clock)
    ≡ ok (pos 258, inserted max_names entries)
unfolding inserted nameserver_start who_is register_as nameserver_round
lookup_after = refl

lookup_before :
    who_is (sent_by response_other 77 9) nameserver_start clock ≡ ok (negsuc 1, nameserver_start)
unfolding who_is nameserver_round nameserver_start
lookup_before = refl

long_name : nameserver_request_init who_is_request (replicate 128 97) 128 ≡ assert_failed
unfolding nameserver_request_init
long_name = refl

negative : int_of 0xFFFFFFFE ≡ negsuc 1
unfolding int_of
negative = refl

nameserver_start-room :
    (0 < nameserver_start.capacity) × (length nameserver_start.arr ≡ nameserver_start.capacity)
unfolding nameserver_start
nameserver_start-room = (omega arith, length-replicate {A = ℕ} max_names 0)

who_is-latest_example :
    (registered response_other 77 entries >>= λ ht. who_is (sent_by response_other 77 9) ht clock)
    ≡ ok (
      answer_of (latest max_names (hash_loop 5381 clock % max_names) entries),
      inserted max_names entries,
    )
who_is-latest_example =
    who_is-latest response_other 77 9 entries clock
      (
        (clock-IsName, omega arith),
        ((shell-IsName, omega arith), ((clock-IsName, omega arith), tt)),
      )
      clock-IsName
