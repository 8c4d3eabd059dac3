-- ===== src/User/Virtual/Tests.antt =====
-- src/user/virtual.c at concrete inputs.
use the_polling_express.Base.{◌≡◌, refl}
use the_polling_express.Base.Int.{pos, negsuc}
use the_polling_express.Base.Outcome.{out_of_bounds}
use the_polling_express.User.Virtual.{v_p_train_num, p_v_train_num}

train_58 : p_v_train_num (pos 58) ≡ pos 2
unfolding p_v_train_num
train_58 = refl

no_train : p_v_train_num (negsuc 0) ≡ negsuc 0
unfolding p_v_train_num
no_train = refl

past_the_table : v_p_train_num 6 ≡ out_of_bounds
unfolding v_p_train_num
past_the_table = refl
