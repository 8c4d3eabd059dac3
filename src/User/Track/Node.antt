-- ===== src/User/Track/Node.antt =====
-- include/user/track_node.h: the nodes and edges of a track. A pointer to `track[i]` is the index `i`,
-- a pointer to `track[i].edge[d]` the pair of `i` and `d`, and NULL is `none`.
use Prim.Native.Char.{code}
use Prim.Native.String.{String}
use the_polling_express.Base.{ℕ, Option, none, some, List, [], ◌∷◌, if◌then◌else◌, ◌==◌}

pub data NodeType : Type 0 where
  node_none node_sensor node_branch node_merge node_enter node_exit : NodeType

abbrev pub dir_straight : ℕ
dir_straight = 0

abbrev pub dir_ahead : ℕ
dir_ahead = 0

abbrev pub dir_curved : ℕ
dir_curved = 1

abbrev pub track_max : ℕ
track_max = 144

abbrev pub inf : ℕ
inf = 100000000

pub record Edge : Type 0 where
  pub reverse : Option (ℕ × ℕ)
  pub src : Option ℕ
  pub dest : Option ℕ
  pub dist : ℕ

-- `edge[0]` and `edge[1]` are the two last fields.
pub record Node : Type 0 where
  pub name : Option (List ℕ)
  pub type : NodeType
  pub num : ℕ
  pub reverse : Option ℕ
  pub ahead : Edge
  pub curved : Edge

-- `n.edge[dir]`
abbrev pub edge : Node → ℕ → Edge
edge n dir = if dir == dir_curved then n.curved else n.ahead

-- the bytes of a text
abbrev pub codes : String → List ℕ
codes String.[] = []
codes (String.◌∷◌ c s) = code c ∷ codes s

abbrev pub arc : ℕ → ℕ → ℕ → ℕ → ℕ → Edge
arc reverse_node reverse_dir src dest dist = record {
  reverse = some (reverse_node, reverse_dir);
  src = some src;
  dest = some dest;
  dist = dist;
}

abbrev pub no_arc : Edge
no_arc = record { reverse = none; src = none; dest = none; dist = 0 }

abbrev pub node : String → NodeType → ℕ → ℕ → Edge → Edge → Node
node name type num reverse ahead curved = record {
  name = some (codes name);
  type = type;
  num = num;
  reverse = some reverse;
  ahead = ahead;
  curved = curved;
}

abbrev pub no_node : Node
no_node = record {
  name = none;
  type = node_none;
  num = 0;
  reverse = none;
  ahead = no_arc;
  curved = no_arc;
}
