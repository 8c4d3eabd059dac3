-- ===== src/User/Navigation/Tests.antt =====
-- The reservations of src/user/navigationserver.c at concrete inputs, on track A.
use the_polling_express.Base.{ℕ, ◌<◌, ◌≡◌, refl, true, false, some, List, [], ◌∷◌, arith, All}
use the_polling_express.User.Track.TableA.{init_tracka}
use the_polling_express.User.Track.Shape.{init_tracka-IsPaired}
use the_polling_express.User.Navigation.Reserve.{
  Reservations, can_reserve_segment, reserve_path, clear_reserved_by_train, write_pair,
}
use the_polling_express.User.Navigation.Reserve.Release.{
  IsMirrored, Freed, Settled, clear_reserved_by_train_lem, write_pair-IsMirrored, no_reservations,
  no_reservations-IsMirrored,
}
use the_polling_express.User.Navigation.Reserve.Claim.{Taken, Holds, reserve_path_lem}

-- train 2 holds nodes 10 and 11
abbrev held : Reservations
held = write_pair init_tracka no_reservations 10 (some 2)

held-IsMirrored : IsMirrored 144 init_tracka held
held-IsMirrored =
    write_pair-IsMirrored 144 init_tracka (omega arith) init_tracka-IsPaired no_reservations 10
      (some 2) (omega arith) (no_reservations-IsMirrored 144 init_tracka)

-- a path round node 10
abbrev way : List ℕ
way = 12 ∷ 10 ∷ 81 ∷ []

way-inside : All (λ i. i < 144) way
way-inside = omega arith

way-free : can_reserve_segment held way 2 ≡ true
unfolding can_reserve_segment init_tracka
way-free = refl

way-taken : can_reserve_segment held way 3 ≡ false
unfolding can_reserve_segment init_tracka
way-taken = refl

reserve_path_example :
    let s = reserve_path init_tracka held way 2 in
    Taken init_tracka way 2 held s × IsMirrored 144 init_tracka s × All (Holds init_tracka 2 s) way
reserve_path_example =
    reserve_path_lem 144 init_tracka (omega arith) init_tracka-IsPaired 2 held way way-inside
      way-free held-IsMirrored

clear_reserved_by_train_example :
    let s = clear_reserved_by_train init_tracka (some 11) held 2 in
    Freed init_tracka (some 11) 2 held s
    × IsMirrored 144 init_tracka s
    × ((j : ℕ) → Settled init_tracka (some 11) 2 s j)
clear_reserved_by_train_example =
    clear_reserved_by_train_lem 144 init_tracka (omega arith) init_tracka-IsPaired (some 11) 2 held
      held-IsMirrored
