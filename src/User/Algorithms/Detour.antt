-- ===== src/User/Algorithms/Detour.antt =====
-- `dijkstras_min_length` of src/user/algorithms.c: the shortest path over a node between that is at least
-- as long as asked. A `min_dist` below 0 asks as much as 0 does.
use the_polling_express.Base.{
  ℕ, zero, suc, ◌+◌, ◌≤◌, ◌<◌, ◌≡◌, ◌⊎◌, Bool, false, Option, some, List, ◌==◌, ltb, leb,
  Bool-cases, if◌then◌else◌, inl, inr, refl, arith, ◌&&◌,
}
use the_polling_express.Base.Int.{ℤ, pos, negsuc}
use the_polling_express.Base.Outcome.{Outcome, ok, IfEnds, IfEnds-bind, IfEnds-always, ◌>>=◌}
use the_polling_express.User.Track.Node.{Node, track_max, inf}
use the_polling_express.User.Algorithms.{dijkstra}

-- `best_dist`, and what the arguments `prev1`, `prev2` and `intermediate` point to
record Detour : Type 0 where
  best_dist : ℕ
  prev1 : List (Option ℕ)
  prev2 : List (Option ℕ)
  intermediate : Option ℕ

-- one round behind the searches from `src` to node `i` and from it to `dest`
unfoldable better : ℕ → ℕ → List (Option ℕ) → List (Option ℕ) → Detour → ℤ → ℤ → Detour
better min_dist i cur_prev1 cur_prev2 d (pos path_len1) (pos path_len2) =
    let path_len = path_len1 + path_len2 in
    if leb min_dist path_len && ltb path_len d.best_dist
    then record {
      best_dist = path_len;
      prev1 = cur_prev1;
      prev2 = cur_prev2;
      intermediate = some i;
    }
    else d
better min_dist i cur_prev1 cur_prev2 d (pos path_len1) (negsuc n) = d
better min_dist i cur_prev1 cur_prev2 d (negsuc n) path_len2 = d

-- the loop over the nodes, with the rounds left
unfoldable detour_loop : ℕ → ℕ → List Node → ℕ → ℕ → List Bool → ℕ → Detour → Outcome Detour
unfolding better
detour_loop zero i track src dest avoid min_dist d = ok d
detour_loop (suc rounds) i track src dest avoid min_dist d = dijkstra track src i avoid >>= λ first.
    dijkstra track i dest avoid >>= λ second.
    detour_loop rounds (i + 1) track src dest avoid min_dist
      (better min_dist i (first.1) (second.1) d (first.0) (second.0))

unfoldable detour_result : Detour → ℤ
detour_result d = if d.best_dist == inf then negsuc 0 else pos d.best_dist

unfoldable dijkstras_min_length :
    List Node
    → ℕ
    → ℕ
    → List (Option ℕ)
    → List (Option ℕ)
    → Option ℕ
    → List Bool
    → ℕ
    → Outcome (ℤ × Detour)
unfolding detour_loop detour_result
dijkstras_min_length track src dest prev1 prev2 intermediate avoid min_dist =
    let start : Detour = record {
      best_dist = inf;
      prev1 = prev1;
      prev2 = prev2;
      intermediate = intermediate;
    } in
    detour_loop track_max 0 track src dest avoid min_dist start >>= λ d. ok (detour_result d, d)

-- none found yet, or one that is as long as asked
abbrev IsLongEnough : ℕ → Detour → Type 0
IsLongEnough min_dist d = (d.best_dist ≡ inf) ⊎ ((min_dist ≤ d.best_dist) × (d.best_dist < inf))

better-IsLongEnough :
    (min_dist i : ℕ) (p1 p2 : List (Option ℕ)) (d : Detour) (len1 len2 : ℤ)
    → IsLongEnough min_dist d
    → IsLongEnough min_dist (better min_dist i p1 p2 d len1 len2)
unfolding better
better-IsLongEnough min_dist i p1 p2 d (pos a) (pos b) h =
    elim (Bool-cases (leb min_dist (a + b) && ltb (a + b) d.best_dist)) [
      | inl taken ↦ rw taken (inr (ground (arith, taken, h)))
      | inr kept ↦ rw kept h
    ]
better-IsLongEnough min_dist i p1 p2 d (pos a) (negsuc n) h = h
better-IsLongEnough min_dist i p1 p2 d (negsuc n) len2 h = h

detour_loop-IsLongEnough :
    (rounds i : ℕ) (track : List Node) (src dest : ℕ) (avoid : List Bool) (min_dist : ℕ)
    (d : Detour)
    → IsLongEnough min_dist d
    → IfEnds (IsLongEnough min_dist) (detour_loop rounds i track src dest avoid min_dist d)
unfolding detour_loop
detour_loop-IsLongEnough zero i track src dest avoid min_dist d h = h
detour_loop-IsLongEnough (suc rounds) i track src dest avoid min_dist d h =
    IfEnds-bind (λ a. Unit {0}) _ (dijkstra track src i avoid) _
      (λ first u.
        IfEnds-bind (λ a. Unit {0}) _ (dijkstra track i dest avoid) _
          (λ second v.
            detour_loop-IsLongEnough rounds (i + 1) track src dest avoid min_dist _
              (better-IsLongEnough min_dist i (first.1) (second.1) d (first.0) (second.0) h))
          (IfEnds-always (dijkstra track i dest avoid)))
      (IfEnds-always (dijkstra track src i avoid))

detour_result-IsLongEnough :
    (min_dist : ℕ) (d : Detour)
    → IsLongEnough min_dist d
    → (detour_result d ≡ negsuc 0) ⊎ ((n : ℕ) × (detour_result d ≡ pos n) × (min_dist ≤ n))
unfolding detour_result
detour_result-IsLongEnough min_dist d (inl none_found) = rw none_found (inl refl)
detour_result-IsLongEnough min_dist d (inr found) =
    let short : (d.best_dist == inf) ≡ false = ground (arith, found) in
    rw short (inr (d.best_dist, refl, found.0))

-- If the searches end, the result is -1 or as long as asked.
dijkstras_min_length-IsLongEnough :
    (track : List Node) (src dest : ℕ) (prev1 prev2 : List (Option ℕ)) (intermediate : Option ℕ)
    (avoid : List Bool) (min_dist : ℕ)
    → IfEnds
        (λ r. (r.0 ≡ negsuc 0) ⊎ ((n : ℕ) × (r.0 ≡ pos n) × (min_dist ≤ n)))
        (dijkstras_min_length track src dest prev1 prev2 intermediate avoid min_dist)
unfolding dijkstras_min_length
dijkstras_min_length-IsLongEnough track src dest prev1 prev2 intermediate avoid min_dist =
    let start : Detour = record {
      best_dist = inf;
      prev1 = prev1;
      prev2 = prev2;
      intermediate = intermediate;
    } in
    IfEnds-bind (IsLongEnough min_dist) _
      (detour_loop track_max 0 track src dest avoid min_dist start) _
      (λ d h. detour_result-IsLongEnough min_dist d h)
      (detour_loop-IsLongEnough track_max 0 track src dest avoid min_dist start (inl refl))
