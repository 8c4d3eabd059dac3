-- ===== src/User/Straightpath.antt =====
-- src/user/straightpathworker.c: `process_path`, which takes a path apart into the sensors on it and the
-- switches to set, and `send_branches`, which sends the switches up to the next sensor. The arrays of a
-- train's record are lists up to their lengths; in `branches`, -1 is `none`, and `t->j` is -1 at the
-- start, which is `none` too. The path is a list of node numbers.
pub mod Distance
pub mod Send
mod Tests
use the_polling_express.Base.{
  ℕ, suc, ◌+◌, ◌*◌, ◌/◌, ◌%◌, Bool, true, false, Option, none, some, List, [], ◌∷◌, drop, ◌==◌,
  if◌then◌else◌,
}
use the_polling_express.Base.Outcome.{Outcome, ok, out_of_bounds, out_of_fuel, ◌>>=◌}
use the_polling_express.User.Track.Node.{
  NodeType, node_none, node_sensor, node_branch, node_merge, node_enter, node_exit, Node, Edge,
  edge,
}
use the_polling_express.User.Track.Shape.{at, index}
use the_polling_express.User.Trainserver.Step.{TrainReq, switch}

-- `next` with `distance`, and `branches`
pub record Route : Type 0 where
  pub sensors : List (ℕ × ℕ)
  pub branches : List (Option ℕ)

-- `cur->edge[DIR_CURVED].dest == &track[path[i + 1]]`, with the rest of the path
unfoldable pub branch_dir : Node → List ℕ → ℕ
branch_dir cur [] = 0
branch_dir cur (j ∷ path) = if index cur.curved.dest == j then 1 else 0

-- `dir`, which is 0 but for a branch, for a node and its type
unfoldable pub out_dir : NodeType → Node → List ℕ → ℕ
unfolding branch_dir
out_dir node_none cur path = 0
out_dir node_sensor cur path = 0
out_dir node_branch cur path = branch_dir cur path
out_dir node_merge cur path = 0
out_dir node_enter cur path = 0
out_dir node_exit cur path = 0

-- a switch with its direction, as an entry of `branches`
abbrev pub entry_of : ℕ → ℕ → Option ℕ
entry_of dir num = some (dir * 256 + num)

module _ (track : List Node) where
  unfoldable pub merge_dir : Node → ℕ → ℕ
  merge_dir cur before =
      if index (at track (index cur.reverse)).curved.dest == index (at track before).reverse
      then 1
      else 0

  -- what the round for a node of a type puts in front of what the later rounds give
  unfoldable pub note_node : NodeType → Option ℕ → ℕ → Node → List ℕ → Route → Route
  unfolding branch_dir merge_dir
  note_node node_none before dist cur path rest = rest
  note_node node_sensor before dist cur path rest = record {
    sensors = (cur.num, dist * 1000) ∷ rest.sensors;
    branches = some 0 ∷ rest.branches;
  }
  note_node node_branch before dist cur [] rest = rest
  note_node node_branch before dist cur (j ∷ path) rest = record rest {
    branches = entry_of (branch_dir cur (j ∷ path)) cur.num ∷ rest.branches;
  }
  note_node node_merge none dist cur path rest = rest
  note_node node_merge (some b) dist cur path rest = record rest {
    branches = entry_of (merge_dir cur b) cur.num ∷ rest.branches;
  }
  note_node node_enter before dist cur path rest = rest
  note_node node_exit before dist cur path rest = rest

  -- `dist` in front of the sum at the end of a round
  unfoldable pub dist_at : NodeType → ℕ → ℕ
  dist_at node_none dist = dist
  dist_at node_sensor dist = 0
  dist_at node_branch dist = dist
  dist_at node_merge dist = dist
  dist_at node_enter dist = dist
  dist_at node_exit dist = dist

  -- the loop of `process_path`, with the node before, and `dist`
  unfoldable pub path_loop : Option ℕ → ℕ → List ℕ → Route
  unfolding note_node dist_at out_dir
  path_loop before dist [] = record { sensors = []; branches = none ∷ [] }
  path_loop before dist (i ∷ path) =
      let cur = at track i in
      let rest =
        path_loop (some i) (dist_at cur.type dist + (edge cur (out_dir cur.type cur path)).dist)
          path in
      note_node cur.type before dist cur path rest

  unfoldable pub process_path : List ℕ → Route
  unfolding path_loop
  process_path path = path_loop none 0 path

-- the `for` of `send_branches` over the entries from `j` on
unfoldable pub send_loop : List (Option ℕ) → ℕ → ℕ → Outcome (List TrainReq × ℕ)
send_loop [] time j = out_of_bounds
send_loop (none ∷ entries) time j = ok ([], j)
send_loop (some e ∷ entries) time j =
    let rest = send_loop entries time (suc j) in
    if e == 0 then ok ([], j) else (rest >>= λ r. ok (switch (e % 256) (e / 256) time ∷ r.0, r.1))

-- `t->branches[t->j] == -1`
unfoldable pub is_end : List (Option ℕ) → ℕ → Outcome Bool
is_end branches j = elim (drop j branches) [
  | [] ↦ out_of_bounds
  | ◌∷◌ e entries ↦ elim e [ none ↦ ok true | some code ↦ ok false ]
]

-- the commands, and `t->j` after the call
unfoldable pub send_branches : List (Option ℕ) → Option ℕ → ℕ → Outcome (List TrainReq × Option ℕ)
unfolding send_loop is_end
send_branches branches none time = send_loop branches time 0 >>= λ r. ok (r.0, some (r.1))
send_branches branches (some j) time = is_end branches j >>= λ ended.
    if ended
    then ok ([], some j)
    else (send_loop (drop (suc j) branches) time (suc j) >>= λ r. ok (r.0, some (r.1)))
