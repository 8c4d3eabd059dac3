-- ===== src/User/Track/Broken.antt =====
-- src/user/track_data.c beside the tables: the nodes behind a merge up to a sensor, which a train must
-- leave free, and switches and sensors that are out of order. A write through a pointer to an edge is a
-- write of that edge of its node. The assertion that the node is valid always holds for a number.
use the_polling_express.Base.{
  ℕ, zero, suc, ◌+◌, ◌-◌, Bool, true, false, ◌&&◌, not, Option, none, some, List, [], ◌∷◌, set, ltb,
  ◌==◌, if◌then◌else◌,
}
use the_polling_express.Base.Outcome.{
  Outcome, ok, assert_failed, out_of_bounds, ◌>>=◌, ◌>>◌, kassert,
}
use the_polling_express.User.Track.Node.{
  NodeType, node_none, node_sensor, node_branch, node_merge, node_enter, node_exit, Node, Edge,
  edge, dir_straight, dir_curved, dir_ahead, inf,
}
use the_polling_express.User.Track.Shape.{at, index}

abbrev pub is_exit : NodeType → Bool
is_exit node_none = false
is_exit node_sensor = false
is_exit node_branch = false
is_exit node_merge = false
is_exit node_enter = false
is_exit node_exit = true

unfoldable pub is_sensor : NodeType → Bool
is_sensor node_none = false
is_sensor node_sensor = true
is_sensor node_branch = false
is_sensor node_merge = false
is_sensor node_enter = false
is_sensor node_exit = false

-- the first index of `buffer_nodes` for a merge
unfoldable pub switch_index : ℕ → ℕ
switch_index num = if ltb num 153 then num - 1 else num - 153 + 18

module _ (track : List Node) where
  -- an edge that a train may leave the branch by
  unfoldable pub is_open : Edge → Bool
  is_open e = not (e.dist == inf) && not (is_exit (at track (index e.dest)).type)

  -- `go_dir`; -1, which a node that is no merge and no branch leaves it at, is no index of `edge`
  unfoldable pub go_dir : NodeType → Node → Outcome ℕ
  unfolding is_open
  go_dir node_merge cur = ok dir_ahead
  go_dir node_branch cur =
      if is_open cur.ahead
      then ok dir_straight
      else if is_open cur.curved
      then ok dir_curved
      else assert_failed
  go_dir node_none cur = out_of_bounds
  go_dir node_sensor cur = out_of_bounds
  go_dir node_enter cur = out_of_bounds
  go_dir node_exit cur = out_of_bounds

  -- the loop of `generate_buffer_node` from node `i` on, with the entries left in the row, which are the
  -- fuel too
  unfoldable pub buffer_loop : ℕ → ℕ → Outcome (List ℕ)
  unfolding is_sensor go_dir
  buffer_loop zero i =
      let cur = at track i in
      if is_sensor cur.type then ok [] else (go_dir cur.type cur >>= λ dir. out_of_bounds)
  buffer_loop (suc room) i =
      let cur = at track i in
      let rest = λ (dir : ℕ). buffer_loop room (index (edge cur dir).dest) in
      if is_sensor cur.type
      then ok []
      else (go_dir cur.type cur >>= λ dir.
          rest dir >>= λ nodes. ok (index (edge cur dir).dest ∷ nodes))

  -- the row of a merge, without its length in front
  unfoldable pub generate_buffer_node : ℕ → Outcome (ℕ × List ℕ)
  unfolding buffer_loop switch_index
  generate_buffer_node merge_node_num = buffer_loop 5 merge_node_num >>= λ nodes.
      ok (switch_index (at track merge_node_num).num, nodes)

-- `track[i].edge[dir]` after a write
unfoldable pub set_edge : List Node → ℕ → ℕ → Edge → List Node
set_edge track i dir e =
    let n = at track i in
    set track i (if dir == dir_curved then record n { curved = e } else record n { ahead = e })

unfoldable pub mark_switch_broken : List Node → ℕ → ℕ → List Node
unfolding set_edge
mark_switch_broken track i stuck_direction =
    let unreachable_direction =
      if stuck_direction == dir_straight then dir_curved else dir_straight in
    set_edge track i unreachable_direction
      (record (edge (at track i) unreachable_direction) { dist = inf })

-- the edge `reverse` points to, by its node and its direction; a null pointer names none
unfoldable pub pointed : {A : Type 0} → Option A → Outcome A
pointed none = out_of_bounds
pointed (some a) = ok a

-- the edge at `place` now leads to `dest`, over `dist`
unfoldable pub bypass : List Node → ℕ × ℕ → ℕ → Option ℕ → List Node
unfolding set_edge
bypass track place dist dest =
    set_edge track (place.0) (place.1)
      (record (edge (at track (place.0)) (place.1)) { dist = dist; dest = dest })

-- `DIR_STRAIGHT` is `DIR_AHEAD`, the one edge of a sensor.
unfoldable pub mark_sensor_broken : List Node → ℕ → Outcome (List Node)
unfolding is_sensor pointed bypass
mark_sensor_broken track i =
    kassert (is_sensor (at track i).type) >> pointed (at track i).reverse >>= λ back.
    let merged_dist = (at track i).ahead.dist + (at track back).ahead.dist in
    pointed (at track back).ahead.reverse >>= λ before.
    let bypassed = bypass track before merged_dist (at track i).ahead.dest in
    pointed (at bypassed i).ahead.reverse >>= λ after.
    ok (bypass bypassed after merged_dist (at bypassed back).ahead.dest)
