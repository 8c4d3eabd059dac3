-- ===== src/User/Virtual.antt =====
-- src/user/virtual.c: the virtual number of a train is its place in the table of supported trains,
-- its physical number is the one on the train. -1 stands for no train. A physical number that comes
-- from the operator may be negative.
pub mod Numbers
mod Tests
use the_polling_express.Base.{
  ℕ, ◌+◌, Bool, true, false, none, some, List, [], ◌∷◌, get_elem?, ◌==◌, if◌then◌else◌,
}
use the_polling_express.Base.Int.{ℤ, pos, negsuc}
use the_polling_express.Base.Outcome.{Outcome, ok, out_of_bounds}

abbrev pub supported_trains : List ℕ
supported_trains = 1 ∷ 24 ∷ 58 ∷ 74 ∷ 78 ∷ 79 ∷ []

abbrev pub max_num_trains : ℕ
max_num_trains = 6

unfoldable pub v_p_train_num : ℕ → Outcome ℕ
v_p_train_num num = elim (get_elem? supported_trains num) [ none ↦ out_of_bounds | some p ↦ ok p ]

-- `supported_trains[i] == num`
unfoldable pub is_train : ℕ → ℤ → Bool
is_train p (pos n) = p == n
is_train p (negsuc n) = false

-- the loop of `p_v_train_num`, with the entries from index `i` on
unfoldable pub find_train : List ℕ → ℕ → ℤ → ℤ
unfolding is_train
find_train [] i num = negsuc 0
find_train (p ∷ rest) i num =
    let later = find_train rest (i + 1) num in if is_train p num then pos i else later

unfoldable pub p_v_train_num : ℤ → ℤ
unfolding find_train
p_v_train_num num = find_train supported_trains 0 num
