-- ===== src/User/Navigation/Reserve.antt =====
-- src/user/navigationserver.c: the reservation of nodes, `can_reserve_segment` to
-- `clear_reserved_by_train`. An entry of `reserved_nodes` is a train, or `none` for -1.
-- Debug messages have no effect on the state and are left out.
pub mod Release
pub mod Claim
use the_polling_express.Base.{
  ℕ, zero, suc, ◌+◌, Bool, true, false, ◌&&◌, not, Option, none, some, List, [], ◌∷◌, get_or, set,
  ◌==◌, if◌then◌else◌,
}
use the_polling_express.User.Track.Node.{Node, track_max}
use the_polling_express.User.Track.Shape.{reverse_num}

-- the globals `reserved_nodes` and `reservation_dirty`
pub record Reservations : Type 0 where
  pub nodes : List (Option ℕ)
  pub dirty : Bool

-- `reserved_nodes[i]`
abbrev pub owner : Reservations → ℕ → Option ℕ
owner r i = get_or r.nodes i none

-- `x == n` for an `int` that is -1 or a number
abbrev pub is_num : Option ℕ → ℕ → Bool
is_num none n = false
is_num (some m) n = m == n

abbrev pub can_take : Option ℕ → ℕ → Bool
can_take none train = true
can_take (some other) train = other == train

unfoldable pub can_reserve_segment : Reservations → List ℕ → ℕ → Bool
can_reserve_segment r [] train = true
can_reserve_segment r (i ∷ path) train =
    if can_take (owner r i) train then can_reserve_segment r path train else false

-- both directions of a node
abbrev pub write_pair : List Node → Reservations → ℕ → Option ℕ → Reservations
write_pair track r i v = record {
  nodes = set (set r.nodes i v) (reverse_num track i) v;
  dirty = true;
}

unfoldable pub reserve_node : List Node → Reservations → ℕ → ℕ → Reservations
reserve_node track r i train = write_pair track r i (some train)

unfoldable pub reserve_path : List Node → Reservations → List ℕ → ℕ → Reservations
reserve_path track r [] train = r
reserve_path track r (i ∷ path) train = reserve_path track (reserve_node track r i train) path train

-- the test of `unreserve_node`, where `last_at` is `train_states[train].reged_at_num`
abbrev pub may_free : List Node → Option ℕ → Option ℕ → ℕ → ℕ → Bool
may_free track last_at holder i train =
    is_num holder train && (not (is_num last_at i) && not (is_num last_at (reverse_num track i)))

unfoldable pub unreserve_node : List Node → Option ℕ → Reservations → ℕ → ℕ → Reservations
unreserve_node track last_at r i train =
    if may_free track last_at (owner r i) i train then write_pair track r i none else r

-- The list is `cur_straightpath_tasks[train].path`, up to its length.
unfoldable pub unreserve_path_src_up_to_node :
    List Node → Option ℕ → Reservations → List ℕ → ℕ → ℕ → Reservations
unreserve_path_src_up_to_node track last_at r [] node_num train = r
unreserve_path_src_up_to_node track last_at r (i ∷ path) node_num train =
    let freed = unreserve_node track last_at r i train in
    let rest = unreserve_path_src_up_to_node track last_at freed path node_num train in
    if i == node_num then freed else rest

-- the loop of `clear_reserved_by_train`, with the rounds left
unfoldable pub clear_from : List Node → Option ℕ → Reservations → ℕ → ℕ → ℕ → Reservations
clear_from track last_at r train i zero = r
clear_from track last_at r train i (suc rounds) =
    clear_from track last_at (unreserve_node track last_at r i train) train (i + 1) rounds

unfoldable pub clear_reserved_by_train : List Node → Option ℕ → Reservations → ℕ → Reservations
clear_reserved_by_train track last_at r train = clear_from track last_at r train 0 track_max
