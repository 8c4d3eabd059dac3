-- ===== src/User/Virtual/Numbers.antt =====
-- src/user/virtual.c: the two numbers of a train, each from the other.
use the_polling_express.Base.{
  ℕ, suc, ◌+◌, ◌-◌, ◌≤◌, ◌<◌, ◌≡◌, refl, arith, true, inl, inr, zero, Bool-cases, List, [], ◌∷◌,
  get_elem?, some,
}
use the_polling_express.Base.Int.{ℤ, pos, negsuc}
use the_polling_express.Base.Outcome.{ok, ◌>>=◌}
use the_polling_express.User.Virtual.{
  v_p_train_num, p_v_train_num, find_train, is_train, max_num_trains, supported_trains,
}

v_p-known :
    (v : ℕ)
    → v < max_num_trains
    → (v_p_train_num v >>= λ p. ok (p_v_train_num (pos p))) ≡ ok (pos v)
unfolding v_p_train_num p_v_train_num find_train is_train
v_p-known zero lt = refl
v_p-known (suc zero) lt = refl
v_p-known (suc (suc zero)) lt = refl
v_p-known (suc (suc (suc zero))) lt = refl
v_p-known (suc (suc (suc (suc zero)))) lt = refl
v_p-known (suc (suc (suc (suc (suc zero))))) lt = refl
v_p-known (suc (suc (suc (suc (suc (suc v)))))) lt = absurd (omega arith)

is_train-eq : (p : ℕ) (num : ℤ) → is_train p num ≡ true → num ≡ pos p
unfolding is_train
is_train-eq p (pos n) e = ground arith
is_train-eq p (negsuc n) e = ground arith

find_train-Found :
    (ps : List ℕ) (i v : ℕ) (num : ℤ)
    → find_train ps i num ≡ pos v
    → (p : ℕ) × (num ≡ pos p) × (get_elem? ps (v - i) ≡ some p) × (i ≤ v)
unfolding find_train
find_train-Found [] i v num e = ground arith
find_train-Found (p ∷ ps) i v num e = elim (Bool-cases (is_train p num)) [
  | inl this ↦
      let here : v - i ≡ 0 = ground arith in (p, is_train-eq p num this, rw here refl, ground arith)
  | inr other ↦
      let found : find_train ps (i + 1) num ≡ pos v = rw other at e in
      let (q, same, at_v, le) = find_train-Found ps (i + 1) v num found in
      (q, same, (let next : v - i ≡ suc (v - (i + 1)) = omega arith in rw next at_v), omega arith)
]

found_at :
    (num : ℤ) (v : ℕ)
    → p_v_train_num num ≡ pos v
    → (p : ℕ) × (num ≡ pos p) × (v_p_train_num v ≡ ok p)
unfolding p_v_train_num v_p_train_num
found_at num v e =
    let (p, same, at_v, le) = find_train-Found supported_trains 0 v num e in
    let same_place : v - 0 ≡ v = omega arith in (p, same, rw (rw same_place at at_v) refl)

-- The physical number of a supported train leads back to its virtual number, and a number that
-- `p_v_train_num` finds is the physical number of the train it finds.
pub p_v-v_p :
    ((v : ℕ)
      → v < max_num_trains
      → (v_p_train_num v >>= λ p. ok (p_v_train_num (pos p))) ≡ ok (pos v))
    × ((num : ℤ) (v : ℕ)
        → p_v_train_num num ≡ pos v
        → (p : ℕ) × (num ≡ pos p) × (v_p_train_num v ≡ ok p))
p_v-v_p = (v_p-known, found_at)
