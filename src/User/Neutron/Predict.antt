-- ===== src/User/Neutron/Predict.antt =====
-- src/user/neutron.c: the prediction of a train's way, `create_neutron`, `find_time` and
-- `adjust_offset`. The values are `uint32_t`, and every product and sum is taken modulo 2^32.
use the_polling_express.Base.{
  ℕ, ◌+◌, ◌-◌, ◌*◌, ◌/◌, ◌%◌, List, [], ◌∷◌, get_or, ltb, ◌==◌, if◌then◌else◌,
}
use the_polling_express.Base.Int.{ℤ, pos, negsuc}
use the_polling_express.Base.Outcome.{Outcome, ok, assert_failed, ◌>>=◌}
use the_polling_express.User.Virtual.{v_p_train_num}
use the_polling_express.User.Neutron.{u32_mod, square_root}

abbrev pub constants : List (List ℕ)
constants =
    (293005 ∷ 1526 ∷ 205 ∷ 179 ∷ 7448 ∷ 8520 ∷ 6979 ∷ 874 ∷ [])
    ∷ (1927195 ∷ 4707 ∷ 496 ∷ 322 ∷ 9483 ∷ 14595 ∷ 7822 ∷ 650 ∷ [])
    ∷ (510000 ∷ 1000 ∷ 1000 ∷ 20 ∷ 1000 ∷ 50000 ∷ 510 ∷ 20 ∷ [])
    ∷ (510000 ∷ 1000 ∷ 1000 ∷ 20 ∷ 1000 ∷ 50000 ∷ 510 ∷ 20 ∷ [])
    ∷ (359022 ∷ 1582 ∷ 252 ∷ 202 ∷ 6288 ∷ 7821 ∷ 5671 ∷ 804 ∷ [])
    ∷ (1687417 ∷ 4523 ∷ 384 ∷ 363 ∷ 11792 ∷ 12474 ∷ 11470 ∷ 945 ∷ [])
    ∷ (300653 ∷ 1445 ∷ 215 ∷ 201 ∷ 6707 ∷ 7200 ∷ 6478 ∷ 932 ∷ [])
    ∷ (1722952 ∷ 4338 ∷ 444 ∷ 350 ∷ 9771 ∷ 12380 ∷ 8741 ∷ 789 ∷ [])
    ∷ (1108617 ∷ 3198 ∷ 421 ∷ 272 ∷ 7591 ∷ 11755 ∷ 6247 ∷ 646 ∷ [])
    ∷ (2447698 ∷ 5761 ∷ 586 ∷ 264 ∷ 9833 ∷ 21835 ∷ 7130 ∷ 450 ∷ [])
    ∷ (333698 ∷ 1246 ∷ 343 ∷ 193 ∷ 3632 ∷ 6469 ∷ 2836 ∷ 562 ∷ [])
    ∷ (1755431 ∷ 3726 ∷ 626 ∷ 317 ∷ 5956 ∷ 11765 ∷ 4486 ∷ 506 ∷ [])
    ∷ []

pub record Neutron : Type 0 where
  pub speed : ℕ
  pub distance : ℕ
  pub time_a : ℕ
  pub dist_a : ℕ
  pub time_b : ℕ
  pub dist_b : ℕ
  pub time_c : ℕ
  pub accel : ℕ
  pub deaccel : ℕ
  pub steady : ℕ

-- the row for a train's number
unfoldable pub offset_of : ℕ → ℕ
offset_of num =
    if num == 1
    then 0
    else if num == 2
    then 2
    else if num == 24
    then 4
    else if num == 58
    then 6
    else if num == 74
    then 8
    else if num == 78
    then 10
    else 6

abbrev pub val : ℕ → ℕ → ℕ
val offset i = get_or (get_or constants offset []) i 0

-- the fields that both branches have, from those that differ
unfoldable pub neutron_of : ℕ → ℕ → ℕ → ℕ → ℕ → Neutron
neutron_of offset distance time_a dist_b time_c = record {
  speed = 7;
  distance = distance;
  time_a = time_a;
  dist_a = val offset 4 * time_a % u32_mod * time_a % u32_mod / 2000;
  time_b = dist_b / val offset 1;
  dist_b = dist_b;
  time_c = time_c;
  accel = val offset 4;
  deaccel = val offset 5;
  steady = val offset 1;
}

-- `force_slow` is not looked at.
unfoldable pub create_neutron : ℕ → ℕ → Outcome Neutron
unfolding v_p_train_num offset_of neutron_of square_root
create_neutron train distance = v_p_train_num train >>= λ num.
    let offset = offset_of num in
    let short = square_root (distance * 1000 % u32_mod / val offset 6) in
    if ltb distance (val offset 0)
    then (short >>= λ time_a.
        ok (neutron_of offset distance time_a 0 (val offset 7 * time_a % u32_mod / 1000)))
    else ok (neutron_of offset distance (val offset 2) (distance - val offset 0) (val offset 3))

unfoldable pub find_time : Neutron → ℕ → Outcome ℕ
unfolding square_root
find_time n distance =
    let starting = square_root (distance * 2000 % u32_mod / n.accel) in
    let left =
      n.time_c * n.time_c % u32_mod
      + u32_mod
      - 2 * distance % u32_mod * 1000 % u32_mod / n.deaccel in
    let stopping = square_root (left % u32_mod) in
    if ltb distance n.dist_a
    then starting
    else if ltb distance ((n.dist_a + n.dist_b) % u32_mod)
    then ok (((distance - n.dist_a) / n.steady + n.time_a) % u32_mod)
    else if ltb distance n.distance
    then (stopping >>= λ root.
        ok (((n.time_a + n.time_b + n.time_c) % u32_mod + u32_mod - root) % u32_mod))
    else assert_failed

-- The `int` that holds the length is added back to a `uint32_t`.
unfoldable pub adjust_offset : Neutron → ℕ → ℤ → Outcome Neutron
unfolding create_neutron
adjust_offset n train (negsuc offset) = ok n
adjust_offset n train (pos offset) =
    let len = n.accel * offset % u32_mod * offset % u32_mod / 2000 in
    create_neutron train ((n.distance + len) % u32_mod)
