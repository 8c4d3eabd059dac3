-- ===== src/User/Straightpath/Tests.antt =====
-- src/user/straightpathworker.c at concrete inputs: a short track of a sensor, a branch and a sensor.
use the_polling_express.Base.{ℕ, ◌*◌, ◌≡◌, refl, none, some, List, [], ◌∷◌, arith}
use the_polling_express.Base.Outcome.{ok, EndsIn}
use the_polling_express.User.Algorithms.{get_path_dist}
use the_polling_express.User.Track.Node.{Node, node, node_sensor, node_branch, arc, no_arc}
use the_polling_express.User.Trainserver.Step.{switch}
use the_polling_express.User.Straightpath.{process_path}
use the_polling_express.User.Straightpath.Distance.{total, process_path-total}
use the_polling_express.User.Straightpath.Send.{
  entries, sensors_in, send_all, SentAll, send_all_lem,
}

abbrev short_track : List Node
short_track =
    node "A1" node_sensor 0 0 (arc 0 0 0 1 215) no_arc
    ∷ node "BR1" node_branch 153 0 (arc 0 0 1 0 99) (arc 0 0 1 2 40)
    ∷ node "A2" node_sensor 1 0 no_arc no_arc
    ∷ []

abbrev way : List ℕ
way = 0 ∷ 1 ∷ 2 ∷ []

taken_apart : process_path short_track way ≡ record {
  sensors = (0, 0) ∷ (1, 255000) ∷ [];
  branches = some 0 ∷ some 409 ∷ some 0 ∷ none ∷ [];
}
unfolding process_path
taken_apart = refl

process_path-total_example : total (process_path short_track way).sensors ≡ 255 * 1000
unfolding get_path_dist
process_path-total_example = process_path-total short_track way 255 refl refl

sent :
    send_all (entries (0 ∷ 409 ∷ 0 ∷ []) []) none (5 ∷ 6 ∷ 7 ∷ [])
    ≡ ok (switch 153 1 6 ∷ [], some 3)
unfolding send_all
sent = refl

send_all_example :
    EndsIn
      (SentAll (entries (0 ∷ 409 ∷ 0 ∷ []) []) [] (0 ∷ 409 ∷ 0 ∷ []))
      (send_all (entries (0 ∷ 409 ∷ 0 ∷ []) []) none (5 ∷ 6 ∷ 7 ∷ []))
unfolding sensors_in
send_all_example = send_all_lem (0 ∷ 409 ∷ 0 ∷ []) [] (5 ∷ 6 ∷ 7 ∷ []) (omega arith)
