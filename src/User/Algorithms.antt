-- ===== src/User/Algorithms.antt =====
-- src/user/algorithms.c: the length of a path, and Dijkstra's search for the shortest one. A pointer to
-- a node is its index, `v - track`. The arrays of `dijkstra` have `track_max` entries; a distance is an
-- `int`: with edges of at most `inf`, such as those of both tracks, every sum that the search makes is at most
-- 2 * `inf`, so that none overflows. For longer edges the model does not wrap around.
mod Detour
pub mod Graph
pub mod Relax
mod Tests
pub mod Lost
pub mod Shortest
pub mod Trace
pub mod Nearest
pub mod Visit
use the_polling_express.Base.{
  ℕ, zero, suc, ◌+◌, Bool, true, false, ◌&&◌, not, Option, none, some, List, [], ◌∷◌, get_or, set,
  replicate, ltb, ◌==◌, if◌then◌else◌, leb,
}
use the_polling_express.Base.Int.{ℤ, pos, negsuc}
use the_polling_express.Base.Outcome.{Outcome, ok, out_of_fuel, out_of_bounds, ◌>>=◌}
use the_polling_express.User.Track.Node.{
  NodeType, node_none, node_sensor, node_branch, node_merge, node_enter, node_exit, Node, Edge,
  track_max, inf,
}
use the_polling_express.User.Track.Shape.{at, index, reverse_num}

abbrev pub is_branch : NodeType → Bool
is_branch node_none = false
is_branch node_sensor = false
is_branch node_branch = true
is_branch node_merge = false
is_branch node_enter = false
is_branch node_exit = false

-- one round of the loop: the length of the edge from `i` to `j`
abbrev pub edge_dist : List Node → ℕ → ℕ → Option ℕ
edge_dist track i j =
    let n = at track i in
    if is_branch n.type
    then (if index n.curved.dest == j
        then some n.curved.dist
        else if index n.ahead.dest == j
        then some n.ahead.dist
        else none)
    else (if index n.ahead.dest == j then some n.ahead.dist else none)

-- the loop of `get_path_dist`, with `dist`
unfoldable pub path_dist_from : List Node → ℕ → List ℕ → ℤ
path_dist_from track dist [] = pos dist
path_dist_from track dist (i ∷ []) = pos dist
path_dist_from track dist (i ∷ j ∷ path) = elim (edge_dist track i j) [
  | none ↦ negsuc 0
  | some d ↦ path_dist_from track (dist + d) (j ∷ path)
]

unfoldable pub get_path_dist : List Node → List ℕ → ℤ
unfolding path_dist_from
get_path_dist track path = path_dist_from track 0 path

-- the arrays `dist`, `in_shortest_path` and `prev`
pub record Search : Type 0 where
  pub dist : List ℕ
  pub in_shortest_path : List Bool
  pub prev : List (Option ℕ)

abbrev pub dist_of : Search → ℕ → ℕ
dist_of s v = get_or s.dist v inf

abbrev pub is_done : Search → ℕ → Bool
is_done s v = get_or s.in_shortest_path v true

-- `uv_dist` is `uv->dist`
unfoldable pub update_dist : Search → ℕ → ℕ → ℕ → Search
update_dist s u v uv_dist =
    let alt = dist_of s u + uv_dist in
    if is_done s v
    then s
    else if ltb alt (dist_of s v) && not (dist_of s u == inf)
    then record s { dist = set s.dist v alt; prev = set s.prev v (some u) }
    else s

abbrev pub may_visit : Search → List Bool → ℕ → Bool
may_visit s avoid i = not (is_done s i) && not (get_or avoid i true)

-- one round of `min_distance`, for `min_index`
abbrev pub nearer : Search → List Bool → ℕ → Option ℕ → Option ℕ
nearer s avoid i none = if may_visit s avoid i then some i else none
nearer s avoid i (some m) =
    if ltb (dist_of s i) (dist_of s m) && may_visit s avoid i then some i else some m

-- its loop, with the rounds left
unfoldable pub min_loop : Search → List Bool → ℕ → ℕ → Option ℕ → Option ℕ
min_loop s avoid zero i m = m
min_loop s avoid (suc rounds) i m = min_loop s avoid rounds (i + 1) (nearer s avoid i m)

-- The index is `none` if `min_index` stays -1.
unfoldable pub min_distance : Search → List Bool → Option ℕ
unfolding min_loop
min_distance s avoid = min_loop s avoid track_max 0 none

-- the updates along the edges of `u`, by the type of its node `n`
unfoldable pub update_ahead : NodeType → Node → Search → ℕ → Search
unfolding update_dist
update_ahead node_merge n s u = update_dist s u (index n.ahead.dest) n.ahead.dist
update_ahead node_sensor n s u = update_dist s u (index n.ahead.dest) n.ahead.dist
update_ahead node_enter n s u = update_dist s u (index n.ahead.dest) n.ahead.dist
update_ahead node_branch n s u =
    let straight = update_dist s u (index n.ahead.dest) n.ahead.dist in
    update_dist straight u (index n.curved.dest) n.curved.dist
update_ahead node_exit n s u = s
update_ahead node_none n s u = s

-- one round of `dijkstra` behind its two returns
unfoldable pub visit : List Node → Search → ℕ → Search
unfolding update_dist update_ahead
visit track s u =
    let marked = record s { in_shortest_path = set s.in_shortest_path u true } in
    let n = at track u in update_dist (update_ahead n.type n marked u) u (index n.reverse) 300

-- the loop of `dijkstra`; the second result is what `prev` points to in the end
unfoldable pub dijkstra_loop :
    ℕ → List Node → ℕ → List Bool → Search → Outcome (ℤ × List (Option ℕ))
unfolding min_distance visit
dijkstra_loop zero track dest avoid s = out_of_fuel
dijkstra_loop (suc fuel) track dest avoid s = elim (min_distance s avoid) [
  | none ↦ out_of_bounds
  | some u ↦
      let rest = dijkstra_loop fuel track dest avoid (visit track s u) in
      if dist_of s u == inf
      then ok (negsuc 0, s.prev)
      else if u == dest
      then ok (pos (dist_of s u), s.prev)
      else rest
]

unfoldable pub dijkstra_start : ℕ → Search
dijkstra_start src = record {
  dist = set (replicate track_max inf) src 0;
  in_shortest_path = replicate track_max false;
  prev = replicate track_max none;
}

unfoldable pub dijkstra : List Node → ℕ → ℕ → List Bool → Outcome (ℤ × List (Option ℕ))
unfolding dijkstra_loop dijkstra_start
dijkstra track src dest avoid = dijkstra_loop (track_max + 1) track dest avoid (dijkstra_start src)
