-- ===== src/User/Track/Buffer.antt =====
-- src/user/track_data.c: the row of `buffer_nodes` for a merge.
use the_polling_express.Base.{
  ℕ, zero, suc, ◌≤◌, ◌<◌, ◌≡◌, refl, Bool, true, false, List, [], ◌∷◌, length, arith, Bool-cases,
  inl, inr, ltb, ltb→lt, ◌&&◌, if◌then◌else◌,
}
use the_polling_express.Base.Check.{every, every_sound, &&-left, &&-right}
use the_polling_express.Base.Outcome.{
  Outcome, ok, out_of_bounds, assert_failed, out_of_fuel, EndsIn, EndsIn-bind, IfEnds, IfEnds-bind,
  IfEnds-always,
}
use the_polling_express.User.Track.Node.{
  NodeType, node_none, node_sensor, node_branch, node_merge, node_enter, node_exit, Node, edge,
}
use the_polling_express.User.Track.Shape.{at, index}
use the_polling_express.User.Track.TableA.{init_tracka}
use the_polling_express.User.Track.TableB.{init_trackb}
use the_polling_express.User.Track.Broken.{
  generate_buffer_node, switch_index, buffer_loop, go_dir, is_sensor,
}

-- The nodes follow each other along edges of the track from node `i` on, and the last one is a sensor.
abbrev pub IsChain : List Node → ℕ → List ℕ → Type 0
IsChain track i [] = is_sensor (at track i).type ≡ true
IsChain track i (j ∷ nodes) =
    ((dir : ℕ) × (index (edge (at track i) dir).dest ≡ j)) × IsChain track j nodes

-- at most as many nodes as the row has room for
abbrev pub IsRow : List Node → ℕ → ℕ → List ℕ → Type 0
IsRow track room i nodes = IsChain track i nodes × (length nodes ≤ room)

buffer_loop-IsRow :
    (track : List Node) (room i : ℕ) → IfEnds (IsRow track room i) (buffer_loop track room i)
unfolding buffer_loop
buffer_loop-IsRow track zero i = elim (Bool-cases (is_sensor (at track i).type)) [
  | inl sensor ↦ rw sensor (sensor, omega arith)
  | inr other ↦ rw other (
      IfEnds-bind _ _ (go_dir track (at track i).type (at track i)) _ (λ dir u. tt)
        (IfEnds-always (go_dir track (at track i).type (at track i))))
]
buffer_loop-IsRow track (suc room) i = elim (Bool-cases (is_sensor (at track i).type)) [
  | inl sensor ↦ rw sensor (sensor, omega arith)
  | inr other ↦ rw other (
      IfEnds-bind _ _ (go_dir track (at track i).type (at track i)) _
        (λ dir u.
          let next = index (edge (at track i) dir).dest in
          IfEnds-bind _ _ (buffer_loop track room next) _
            (λ nodes row. (((dir, refl), row.0), omega (arith, row.1)))
            (buffer_loop-IsRow track room next))
        (IfEnds-always (go_dir track (at track i).type (at track i))))
]

abbrev pub is_merge : NodeType → Bool
is_merge node_none = false
is_merge node_sensor = false
is_merge node_branch = false
is_merge node_merge = true
is_merge node_enter = false
is_merge node_exit = false

abbrev is_ok : Outcome (List ℕ) → Bool
is_ok (ok a) = true
is_ok assert_failed = false
is_ok out_of_fuel = false
is_ok out_of_bounds = false

-- both tables
abbrev pub table : Bool → List Node
table true = init_tracka
table false = init_trackb

-- the row of node `i` is made and has a place, if the node is a merge
abbrev has_row : List Node → ℕ → Bool
has_row track i =
    if is_merge (at track i).type
    then is_ok (buffer_loop track 5 i) && ltb (switch_index (at track i).num) 22
    else true

EndsIn-is_ok :
    (P : List ℕ → Type 0) (r : Outcome (List ℕ)) → is_ok r ≡ true → IfEnds P r → EndsIn P r
EndsIn-is_ok P (ok a) e h = h
EndsIn-is_ok P assert_failed e h = ground arith
EndsIn-is_ok P out_of_fuel e h = ground arith
EndsIn-is_ok P out_of_bounds e h = ground arith

table_rows : (a : Bool) → every 144 (has_row (table a)) ≡ true
unfolding every buffer_loop init_tracka init_trackb switch_index
table_rows true = refl
table_rows false = refl

table_row :
    (a : Bool) (i : ℕ)
    → i < 144
    → is_merge (at (table a) i).type ≡ true
    → (is_ok (buffer_loop (table a) 5 i) && ltb (switch_index (at (table a) i).num) 22) ≡ true
table_row a i inside merge =
    rw merge at (every_sound (has_row (table a)) 144 i inside (table_rows a))

-- For each merge of both tracks `generate_buffer_node` ends, within the bounds of `buffer_nodes`: its row
-- is one of the 22, and holds at most five nodes, which follow each other along edges of the track from
-- the merge to a sensor.
pub generate_buffer_node-IsRow :
    (a : Bool) (i : ℕ)
    → i < 144
    → is_merge (at (table a) i).type ≡ true
    → EndsIn (λ r. (r.0 < 22) × IsRow (table a) 5 i (r.1)) (generate_buffer_node (table a) i)
unfolding generate_buffer_node
generate_buffer_node-IsRow a i inside merge =
    let checked = table_row a i inside merge in
    let rows = is_ok (buffer_loop (table a) 5 i) in
    let placed = ltb (switch_index (at (table a) i).num) 22 in
    EndsIn-bind _ _ (buffer_loop (table a) 5 i) _
      (λ nodes row. (ltb→lt _ 22 (&&-right rows placed checked), row))
      (EndsIn-is_ok _ (buffer_loop (table a) 5 i) (&&-left rows placed checked)
        (buffer_loop-IsRow (table a) 5 i))
