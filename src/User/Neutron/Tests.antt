-- ===== src/User/Neutron/Tests.antt =====
-- src/user/neutron.c at concrete inputs.
use the_polling_express.Base.{◌≡◌, refl, arith}
use the_polling_express.Base.Outcome.{ok, EndsIn, ◌>>=◌}
use the_polling_express.User.Neutron.{square_root}
use the_polling_express.User.Neutron.Predict.{create_neutron, find_time}
use the_polling_express.User.Neutron.Root.{IsFloorRoot, square_root-IsFloorRoot}

root_of_1000000 : square_root 1000000 ≡ ok 1000
unfolding square_root
root_of_1000000 = refl

square_root_example : EndsIn (IsFloorRoot 0xFFFFFFFF) (square_root 0xFFFFFFFF)
square_root_example = square_root-IsFloorRoot 0xFFFFFFFF (omega arith)

-- A way of 1,000,000 for the train 58, and the time at which it has gone 900,000, which is past the
-- steady part: the difference below the root wraps, and so does the time.
late_time : (create_neutron 2 1000000 >>= λ n. find_time n 900000) ≡ ok 4294902661
unfolding create_neutron find_time
late_time = refl
