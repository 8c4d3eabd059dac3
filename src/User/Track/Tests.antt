-- ===== src/User/Track/Tests.antt =====
-- src/user/track_data.c at concrete inputs: the merge MR1 of track A.
use the_polling_express.Base.{◌<◌, refl, true, arith}
use the_polling_express.Base.Outcome.{EndsIn}
use the_polling_express.User.Track.TableA.{init_tracka}
use the_polling_express.User.Track.Broken.{generate_buffer_node}
use the_polling_express.User.Track.Buffer.{table, IsRow, generate_buffer_node-IsRow}

generate_buffer_node_example :
    EndsIn (λ r. (r.0 < 22) × IsRow (table true) 5 81 (r.1)) (generate_buffer_node (table true) 81)
unfolding init_tracka
generate_buffer_node_example = generate_buffer_node-IsRow true 81 (omega arith) refl
