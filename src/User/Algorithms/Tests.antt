-- ===== src/User/Algorithms/Tests.antt =====
-- The searches of src/user/algorithms.c on track A.
use the_polling_express.Base.{
  ℕ, suc, ◌<◌, ◌≡◌, zero, refl, Bool, true, false, ◌&&◌, Option, List, [], ◌∷◌, inl, inr, arith,
  replicate, ltb, ltb→lt, ap,
}
use the_polling_express.Base.Check.{every, every_sound, &&-left, &&-right}
use the_polling_express.Base.Int.{ℤ, pos}
use the_polling_express.Base.Outcome.{ok, out_of_bounds}
use the_polling_express.User.Track.Node.{Node, track_max}
use the_polling_express.User.Track.TableA.{init_tracka}
use the_polling_express.User.Algorithms.{dijkstra, get_path_dist}
use the_polling_express.User.Algorithms.Graph.{neighbours, HasEdge, IsWired, start}
use the_polling_express.User.Algorithms.Shortest.{IsAnswer, dijkstra-IsAnswer}
use the_polling_express.User.Algorithms.Lost.{AllReached, dijkstra-out_of_bounds}

ends_below : ℕ → List (ℕ × ℕ) → Bool
ends_below n [] = true
ends_below n ((v, w) ∷ edges) = ltb v n && ends_below n edges

ends_below-lt :
    (n v w : ℕ) (edges : List (ℕ × ℕ)) → ends_below n edges ≡ true → HasEdge v w edges → v < n
unfolding ends_below
ends_below-lt n v w [] h m = absurd m
ends_below-lt n v w ((x, y) ∷ edges) h (inl e) =
    let same : x ≡ v = ap (λ p. p.0) e in rw (← same) (ltb→lt x n (&&-left _ _ h))
ends_below-lt n v w ((x, y) ∷ edges) h (inr m) = ends_below-lt n v w edges (&&-right _ _ h) m

ends_at : List Node → ℕ → Bool
ends_at track u = ends_below track_max (neighbours track u)

IsWired-every :
    (track : List Node) → every track_max (ends_at track) ≡ true → IsWired track_max track
unfolding ends_at
IsWired-every track h u v w lt edge =
    ends_below-lt track_max v w (neighbours track u) (every_sound (ends_at track) track_max u lt h)
      edge

init_tracka-IsWired : IsWired track_max init_tracka
unfolding every ends_at ends_below init_tracka
init_tracka-IsWired = IsWired-every init_tracka refl

-- every node may be visited
abbrev no_avoid : List Bool
no_avoid = replicate track_max false

dijkstra-IsAnswer_example :
    (r : ℤ × List (Option ℕ)) × (dijkstra init_tracka 0 70 no_avoid ≡ ok r)
    × IsAnswer init_tracka no_avoid 0 70 r
dijkstra-IsAnswer_example =
    dijkstra-IsAnswer init_tracka 0 70 no_avoid init_tracka-IsWired (omega arith) (omega arith) refl

-- node 0 alone may be visited
abbrev shut_in : List Bool
shut_in = false ∷ []

shut_in-AllReached : AllReached init_tracka shut_in 0
shut_in-AllReached zero lt free = (0, start refl refl, omega arith)
shut_in-AllReached (suc x) lt free = absurd (ground arith)

dijkstra-out_of_bounds_example : dijkstra init_tracka 0 70 shut_in ≡ out_of_bounds
dijkstra-out_of_bounds_example =
    dijkstra-out_of_bounds init_tracka shut_in 0 70 init_tracka-IsWired (omega arith) refl
      shut_in-AllReached

-- from A1 to the node ahead
path_length : get_path_dist init_tracka (0 ∷ 103 ∷ []) ≡ pos 231
unfolding get_path_dist init_tracka
path_length = refl
