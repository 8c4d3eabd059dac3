-- ===== src/User/Track/Shape.antt =====
-- The shape of the two tables of src/user/track_data.c: the reverse of a node, and the twin of an arc.
use the_polling_express.Base.{
  ℕ, ◌<◌, ◌≡◌, refl, Bool, true, ◌&&◌, Option, none, some, List, arith, get_or, ltb, ◌==◌, ==_iff,
  ltb→lt,
}
use the_polling_express.Base.Check.{every, every_sound, &&-left, &&-right}
use the_polling_express.User.Track.Node.{
  NodeType, node_none, node_sensor, node_branch, node_merge, node_enter, node_exit, Node, edge,
  no_node, track_max,
}
use the_polling_express.User.Track.TableA.{init_tracka}
use the_polling_express.User.Track.TableB.{init_trackb}

-- `track[i]`
abbrev pub at : List Node → ℕ → Node
at track i = get_or track i no_node

-- `p - track` for a pointer `p`. NULL gives a number that is no index.
abbrev pub index : Option ℕ → ℕ
index none = track_max
index (some i) = i

-- `track[i].reverse - track`
abbrev pub reverse_num : List Node → ℕ → ℕ
reverse_num track i = index (at track i).reverse

-- how many arcs leave a node of a type
abbrev pub arcs : NodeType → ℕ
arcs node_none = 0
arcs node_sensor = 1
arcs node_branch = 2
arcs node_merge = 1
arcs node_enter = 1
arcs node_exit = 0

-- the type that the reverse of a node of a type has
abbrev pub opposite : NodeType → NodeType
opposite node_none = node_none
opposite node_sensor = node_sensor
opposite node_branch = node_merge
opposite node_merge = node_branch
opposite node_enter = node_exit
opposite node_exit = node_enter

type_code : NodeType → ℕ
type_code node_none = 0
type_code node_sensor = 1
type_code node_branch = 2
type_code node_merge = 3
type_code node_enter = 4
type_code node_exit = 5

type_of_code : (s t : NodeType) → type_code s ≡ type_code t → s ≡ t
unfolding type_code
type_of_code s t h = ground arith

-- The first `n` nodes are paired by `reverse`, and a pair has opposite types.
pub record IsPaired (n : ℕ) (track : List Node) : Type 0 where
  pub reverse_in : (i : ℕ) → i < n → reverse_num track i < n
  pub reverse_back : (i : ℕ) → i < n → reverse_num track (reverse_num track i) ≡ i
  pub reverse_type :
      (i : ℕ) → i < n → (at track (reverse_num track i)).type ≡ opposite (at track i).type

paired : ℕ → List Node → ℕ → Bool
paired n track i =
    (ltb (reverse_num track i) n && reverse_num track (reverse_num track i) == i)
    && type_code (at track (reverse_num track i)).type == type_code (opposite (at track i).type)

IsPaired-paired : (n : ℕ) (track : List Node) → every n (paired n track) ≡ true → IsPaired n track
unfolding paired
IsPaired-paired n track h =
    let all = λ (i : ℕ) (lt : i < n). every_sound (paired n track) n i lt h in
    record {
      reverse_in = λ i lt. ltb→lt _ _ (&&-left _ _ (&&-left _ _ (all i lt)));
      reverse_back = λ i lt. (==_iff _ _).0 (&&-right _ _ (&&-left _ _ (all i lt)));
      reverse_type = λ i lt. type_of_code _ _ ((==_iff _ _).0 (&&-right _ _ (all i lt)));
    }

pub init_tracka-IsPaired : IsPaired 144 init_tracka
unfolding every paired type_code init_tracka
init_tracka-IsPaired = IsPaired-paired 144 init_tracka refl

pub init_trackb-IsPaired : IsPaired 140 init_trackb
unfolding every paired type_code init_trackb
init_trackb-IsPaired = IsPaired-paired 140 init_trackb refl

-- `track[i].edge[d].reverse`, as the node and the direction of the twin
abbrev pub twin_node : List Node → ℕ → ℕ → ℕ
twin_node track i d = elim (edge (at track i) d).reverse [ none ↦ track_max | some (j, e) ↦ j ]

abbrev pub twin_dir : List Node → ℕ → ℕ → ℕ
twin_dir track i d = elim (edge (at track i) d).reverse [ none ↦ 0 | some (j, e) ↦ e ]

-- Edge `d` of node `i` leaves `i` for a node of the track, and its twin runs between the reverses of
-- the two nodes, the other way round, at the same length.
pub record IsArc (n : ℕ) (track : List Node) (i d : ℕ) : Type 0 where
  pub source : index (edge (at track i) d).src ≡ i
  pub dest_in : index (edge (at track i) d).dest < n
  pub twin_at : twin_node track i d ≡ reverse_num track (index (edge (at track i) d).dest)
  pub twin_dest :
      index (edge (at track (twin_node track i d)) (twin_dir track i d)).dest ≡ reverse_num track i
  pub twin_dist :
      (edge (at track (twin_node track i d)) (twin_dir track i d)).dist ≡ (edge (at track i) d).dist
  pub twin_back : twin_node track (twin_node track i d) (twin_dir track i d) ≡ i
  pub twin_back_dir : twin_dir track (twin_node track i d) (twin_dir track i d) ≡ d

arc_shape : ℕ → List Node → ℕ → ℕ → Bool
arc_shape n track i d =
    let e = edge (at track i) d in
    let j = twin_node track i d in
    let c = twin_dir track i d in
    let f = edge (at track j) c in
    index e.src == i
    && (ltb (index e.dest) n
        && (j == reverse_num track (index e.dest)
            && (index f.dest == reverse_num track i
                && (f.dist == e.dist && (twin_node track j c == i && twin_dir track j c == d)))))

arc_shape-IsArc :
    (n : ℕ) (track : List Node) (i d : ℕ) → arc_shape n track i d ≡ true → IsArc n track i d
unfolding arc_shape
arc_shape-IsArc n track i d h =
    let eq = λ (a b : ℕ) (e : (a == b) ≡ true). (==_iff a b).0 e in
    let h1 = &&-right _ _ h in
    let h2 = &&-right _ _ h1 in
    let h3 = &&-right _ _ h2 in
    let h4 = &&-right _ _ h3 in
    let h5 = &&-right _ _ h4 in
    record {
      source = eq _ _ (&&-left _ _ h);
      dest_in = ltb→lt _ _ (&&-left _ _ h1);
      twin_at = eq _ _ (&&-left _ _ h2);
      twin_dest = eq _ _ (&&-left _ _ h3);
      twin_dist = eq _ _ (&&-left _ _ h4);
      twin_back = eq _ _ (&&-left _ _ h5);
      twin_back_dir = eq _ _ (&&-right _ _ h5);
    }

-- every edge that the type of the node gives it
arcs_shape : ℕ → List Node → ℕ → Bool
arcs_shape n track i = every (arcs (at track i).type) (arc_shape n track i)

IsArc-arcs_shape :
    (n : ℕ) (track : List Node)
    → every n (arcs_shape n track) ≡ true
    → (i d : ℕ) → i < n
    → d < arcs (at track i).type
    → IsArc n track i d
unfolding arcs_shape
IsArc-arcs_shape n track h i d lt below =
    let node_ok = every_sound (arcs_shape n track) n i lt h in
    arc_shape-IsArc n track i d
      (every_sound (arc_shape n track i) (arcs (at track i).type) d below node_ok)

pub init_tracka-IsArc :
    (i d : ℕ) → i < 144 → d < arcs (at init_tracka i).type → IsArc 144 init_tracka i d
init_tracka-IsArc = IsArc-arcs_shape 144 init_tracka checked
  where
    checked : every 144 (arcs_shape 144 init_tracka) ≡ true
    checked = unfold every arcs_shape arc_shape init_tracka in refl

pub init_trackb-IsArc :
    (i d : ℕ) → i < 140 → d < arcs (at init_trackb i).type → IsArc 140 init_trackb i d
init_trackb-IsArc = IsArc-arcs_shape 140 init_trackb checked
  where
    checked : every 140 (arcs_shape 140 init_trackb) ≡ true
    checked = unfold every arcs_shape arc_shape init_trackb in refl

-- In both track tables the reverse of each node is a node of the table of the opposite type, and its
-- reverse is the node; track B leaves its last four nodes out. Every edge that the type of its node has
-- leaves that node for a node of the table, and its twin runs from the reverse of its end to the
-- reverse of its start, at the same length and with the edge as its own twin.
pub tables-AreSound :
    IsPaired 144 init_tracka
    × IsPaired 140 init_trackb
    × ((i d : ℕ) → i < 144 → d < arcs (at init_tracka i).type → IsArc 144 init_tracka i d)
    × ((i d : ℕ) → i < 140 → d < arcs (at init_trackb i).type → IsArc 140 init_trackb i d)
tables-AreSound = (init_tracka-IsPaired, init_trackb-IsPaired, init_tracka-IsArc, init_trackb-IsArc)
