-- ===== src/User/Algorithms/Graph.antt =====
-- The graph that `dijkstra` of src/user/algorithms.c searches: the edges that the type of a node has,
-- and the turn to its reverse, at a length of 300.
use the_polling_express.Base.{
  ℕ, ◌+◌, ◌<◌, ◌≡◌, true, false, Bool, List, [], ◌∷◌, ◌++◌, Has, get_or, Option, some, none,
}
use the_polling_express.User.Track.Node.{
  NodeType, node_none, node_sensor, node_branch, node_merge, node_enter, node_exit, Node,
}
use the_polling_express.User.Track.Shape.{at, index}

-- the ends and the lengths of the edges
abbrev pub ahead_of : NodeType → Node → List (ℕ × ℕ)
ahead_of node_merge n = (index n.ahead.dest, n.ahead.dist) ∷ []
ahead_of node_sensor n = (index n.ahead.dest, n.ahead.dist) ∷ []
ahead_of node_enter n = (index n.ahead.dest, n.ahead.dist) ∷ []
ahead_of node_branch n =
    (index n.ahead.dest, n.ahead.dist) ∷ (index n.curved.dest, n.curved.dist) ∷ []
ahead_of node_exit n = []
ahead_of node_none n = []

abbrev pub neighbours : List Node → ℕ → List (ℕ × ℕ)
neighbours track u =
    ahead_of (at track u).type (at track u) ++ (index (at track u).reverse, 300) ∷ []

abbrev pub HasEdge : ℕ → ℕ → List (ℕ × ℕ) → Type 0
HasEdge v w edges = Has (v, w) edges

abbrev pub IsAllowed : List Bool → ℕ → Type 0
IsAllowed avoid u = get_or avoid u true ≡ false

-- A walk of length `d` from `src` to `v` that leaves allowed nodes only.
pub data Walk (track : List Node) (avoid : List Bool) (src : ℕ) : ℕ → ℕ → Type 0 where
  start : {v d : ℕ} → v ≡ src → d ≡ 0 → Walk track avoid src v d
  step :
      {u v c d : ℕ} (w : ℕ)
      → Walk track avoid src u c
      → IsAllowed avoid u
      → HasEdge v w (neighbours track u)
      → d ≡ c + w
      → Walk track avoid src v d

-- Each edge ends at one of the first `n` nodes.
abbrev pub IsWired : ℕ → List Node → Type 0
IsWired n track = (u v w : ℕ) → u < n → HasEdge v w (neighbours track u) → v < n

-- Going back by `prev` from `v` comes to `src`, over edges of the sum `d`.
pub data Route (track : List Node) (prev : List (Option ℕ)) (src : ℕ) : ℕ → ℕ → Type 0 where
  origin : {v d : ℕ} → v ≡ src → d ≡ 0 → Route track prev src v d
  hop :
      {u v c d : ℕ} (w : ℕ)
      → get_or prev v none ≡ some u
      → Route track prev src u c
      → HasEdge v w (neighbours track u)
      → d ≡ c + w
      → Route track prev src v d
