-- ===== src/User/Straightpath/Distance.antt =====
-- src/user/straightpathworker.c: the distances between the sensors of a path.
use the_polling_express.Base.{
  ℕ, ◌+◌, ◌*◌, ◌≡◌, refl, sym, ap, ◌∙◌, Option, none, some, List, [], ◌∷◌, arith, ◌==◌,
  if◌then◌else◌, inl, inr, Option-cases,
}
use the_polling_express.Base.Int.{ℤ, pos, negsuc, pos_part}
use the_polling_express.User.Algorithms.{edge_dist, is_branch, path_dist_from, get_path_dist}
use the_polling_express.User.Track.Node.{
  NodeType, node_none, node_sensor, node_branch, node_merge, node_enter, node_exit, Node, edge,
}
use the_polling_express.User.Track.Shape.{at, index}
use the_polling_express.User.Straightpath.{
  Route, branch_dir, out_dir, note_node, dist_at, path_loop, process_path,
}

-- the sum of the distances
abbrev pub total : List (ℕ × ℕ) → ℕ
total [] = 0
total ((num, distance) ∷ sensors) = distance + total sensors

-- the path ends at a sensor
abbrev pub EndsAtSensor : List Node → List ℕ → Type 0
EndsAtSensor track [] = ⊥
EndsAtSensor track (i ∷ []) = (at track i).type ≡ node_sensor
EndsAtSensor track (i ∷ j ∷ path) = EndsAtSensor track (j ∷ path)

-- `edge_dist` for a node and its type
abbrev leaves : NodeType → Node → ℕ → Option ℕ
leaves type n j =
    if is_branch type
    then (if index n.curved.dest == j
        then some n.curved.dist
        else if index n.ahead.dest == j
        then some n.ahead.dist
        else none)
    else (if index n.ahead.dest == j then some n.ahead.dist else none)

-- the edge that `process_path` leaves a node by is the one that `get_path_dist` counts
out_dir-dist :
    (type : NodeType) (n : Node) (j d : ℕ) (path : List ℕ)
    → leaves type n j ≡ some d
    → (edge n (out_dir type n (j ∷ path))).dist ≡ d
unfolding out_dir branch_dir
out_dir-dist node_none n j d path e = ground arith
out_dir-dist node_sensor n j d path e = ground arith
out_dir-dist node_branch n j d path e = ground arith
out_dir-dist node_merge n j d path e = ground arith
out_dir-dist node_enter n j d path e = ground arith
out_dir-dist node_exit n j d path e = ground arith

-- a round leaves the sum of its distances and of `dist` as it is
note_node-total :
    (track : List Node) (type : NodeType) (before : Option ℕ) (dist : ℕ) (cur : Node)
    (path : List ℕ) (rest : Route)
    → total (note_node track type before dist cur path rest).sensors
        + dist_at track type dist * 1000
      ≡ total rest.sensors + dist * 1000
unfolding note_node dist_at
note_node-total track node_none before dist cur path rest = refl
note_node-total track node_sensor before dist cur path rest = omega arith
note_node-total track node_branch before dist cur [] rest = refl
note_node-total track node_branch before dist cur (j ∷ path) rest = refl
note_node-total track node_merge none dist cur path rest = refl
note_node-total track node_merge (some b) dist cur path rest = refl
note_node-total track node_enter before dist cur path rest = refl
note_node-total track node_exit before dist cur path rest = refl

pos_inj : (a b : ℕ) → pos a ≡ pos b → a ≡ b
pos_inj a b e = ap pos_part e

last-total :
    (track : List Node) (before : Option ℕ) (dist i : ℕ)
    → (at track i).type ≡ node_sensor
    → total (path_loop track before dist (i ∷ [])).sensors ≡ dist * 1000
unfolding path_loop note_node
last-total track before dist i ends = rw ends (omega arith)

-- the round for a node that is not the last one
path_loop-step :
    (track : List Node) (before : Option ℕ) (dist i j d : ℕ) (path : List ℕ)
    → edge_dist track i j ≡ some d
    → (kept : ℕ) × (total (path_loop track before dist (i ∷ j ∷ path)).sensors + kept * 1000
        ≡ total (path_loop track (some i) (kept + d) (j ∷ path)).sensors + dist * 1000)
unfolding path_loop
path_loop-step track before dist i j d path found =
    let cur = at track i in
    let kept = dist_at track cur.type dist in
    let rest = λ (w : ℕ). path_loop track (some i) (kept + w) (j ∷ path) in
    let length_out = out_dir-dist cur.type cur j d path found in
    (kept, rw length_out (note_node-total track cur.type before dist cur (j ∷ path) (rest d)))

-- the step of `get_path_dist` for what `edge_dist` gives
unfoldable next_dist : List Node → ℕ → ℕ → List ℕ → Option ℕ → ℤ
next_dist track from j path none = negsuc 0
next_dist track from j path (some d) = path_dist_from track (from + d) (j ∷ path)

path_dist-step :
    (track : List Node) (from i j : ℕ) (path : List ℕ) (found : Option ℕ)
    → edge_dist track i j ≡ found
    → path_dist_from track from (i ∷ j ∷ path) ≡ next_dist track from j path found
unfolding path_dist_from next_dist
path_dist-step track from i j path found e =
    go (edge_dist track i j) ∙ ap (next_dist track from j path) e
  where
    go :
        (o : Option ℕ)
        → (elim o [ none ↦ negsuc 0 | some d ↦ path_dist_from track (from + d) (j ∷ path) ])
          ≡ next_dist track from j path o
    go none = refl
    go (some d) = refl

path_loop-total :
    (track : List Node) (before : Option ℕ) (dist from all : ℕ) (path : List ℕ)
    → EndsAtSensor track path
    → path_dist_from track from path ≡ pos all
    → total (path_loop track before dist path).sensors + from * 1000 ≡ (dist + all) * 1000
unfolding path_dist_from next_dist
path_loop-total track before dist from all [] ends e = absurd ends
path_loop-total track before dist from all (i ∷ []) ends e =
    omega (arith, last-total track before dist i ends, pos_inj from all e)
path_loop-total track before dist from all (i ∷ j ∷ path) ends e =
    elim (Option-cases (edge_dist track i j)) [
      | inl cut ↦
          (let fails : negsuc 0 ≡ pos all = sym (path_dist-step track from i j path none cut) ∙ e in
            ground arith)
      | inr (d, found) ↦
          let later : path_dist_from track (from + d) (j ∷ path) ≡ pos all =
            sym (path_dist-step track from i j path (some d) found) ∙ e in
          let (kept, round) = path_loop-step track before dist i j d path found in
          omega (
            arith,
            round,
            path_loop-total track (some i) (kept + d) (from + d) all (j ∷ path) ends later,
          )
    ]

-- For a path along edges of the track that ends at a sensor, the distances between the sensors add up
-- to the length that `get_path_dist` gives, in thousandths.
pub process_path-total :
    (track : List Node) (path : List ℕ) (all : ℕ)
    → EndsAtSensor track path
    → get_path_dist track path ≡ pos all
    → total (process_path track path).sensors ≡ all * 1000
unfolding process_path get_path_dist
process_path-total track path all ends e =
    omega (arith, path_loop-total track none 0 0 all path ends e)
