-- ===== src/User/Algorithms/Lost.antt =====
-- `dijkstra` of src/user/algorithms.c with a destination that is to be avoided.
use the_polling_express.Base.{
  ℕ, zero, suc, ◌+◌, ◌≤◌, ◌<◌, ◌≡◌, inl, inr, refl, true, false, Bool, Bool-cases, Option-cases,
  List, get_or, arith, ◌==◌, ==_iff,
}
use mathlib.Core.Path.{subst}
use the_polling_express.Base.Outcome.{out_of_bounds}
use the_polling_express.User.Track.Node.{Node, track_max, inf}
use the_polling_express.User.Algorithms.{
  Search, dist_of, is_done, min_distance, visit, dijkstra_loop, dijkstra_start, dijkstra,
}
use the_polling_express.User.Algorithms.Graph.{IsWired, IsAllowed, Walk}
use the_polling_express.User.Algorithms.Nearest.{Nearest, min_distance-Nearest}
use the_polling_express.User.Algorithms.Trace.{Inv, visit-Inv, relaxed}
use the_polling_express.User.Algorithms.Shortest.{
  count_open, count_open-set, count_open-le-length, Walk-lower, start-Inv, start-IsSized,
}

-- a walk shorter than `inf` to each allowed node
abbrev pub AllReached : List Node → List Bool → ℕ → Type 0
AllReached track avoid src =
    (x : ℕ) → x < track_max → IsAllowed avoid x → (d : ℕ) × Walk track avoid src x d × (d < inf)

near_of : (a : ℕ) → a < inf → (a == inf) ≡ false
near_of a lt = ground arith

other_of :
    (avoid : List Bool) (u dest : ℕ)
    → IsAllowed avoid u
    → get_or avoid dest true ≡ true
    → (u == dest) ≡ false
other_of avoid u dest free shut = elim (Bool-cases (u == dest)) [
  | inl hit ↦
      let e : u ≡ dest = (==_iff u dest).0 hit in
      let both : get_or avoid dest true ≡ false = subst (IsAllowed avoid) e free in
      absurd (ground arith)
  | inr miss ↦ miss
]

module _ (track : List Node) (avoid : List Bool) (src : ℕ) (wired : IsWired track_max track)
    (lt_src : src < track_max) (dest : ℕ) (shut : get_or avoid dest true ≡ true)
    (all : AllReached track avoid src) where
  nearest-lt :
      (s : Search) (m u : ℕ)
      → Inv track avoid src s m
      → u < track_max
      → IsAllowed avoid u
      → ((x : ℕ)
          → x < track_max
          → is_done s x ≡ false
          → IsAllowed avoid x
          → dist_of s u ≤ dist_of s x)
      → dist_of s u < inf
  nearest-lt s m u inv lt ok_u low =
      let (d, p, short) = all u lt ok_u in
      elim (Walk-lower track avoid src wired lt_src s m (dist_of s u) inv low p) [
        | inl le ↦ omega arith
        | inr le ↦ omega arith
      ]

  loop-lost :
      (fuel : ℕ) (s : Search) (m : ℕ)
      → Inv track avoid src s m
      → count_open s.in_shortest_path < fuel
      → dijkstra_loop fuel track dest avoid s ≡ out_of_bounds
  unfolding dijkstra_loop
  loop-lost zero s m inv enough = absurd (omega arith)
  loop-lost (suc fuel) s m inv enough = elim (Option-cases (min_distance s avoid)) [
    | inl e ↦ rw (e, dijkstra_loop) refl
    | inr (u, e) ↦
        let (lt, may, least) = subst (Nearest s avoid track_max) e (min_distance-Nearest s avoid) in
        let free : is_done s u ≡ false = ground arith in
        let ok_u : IsAllowed avoid u = ground arith in
        let low =
          λ (x : ℕ) (inside : x < track_max) (o : is_done s x ≡ false) (ok_x : IsAllowed avoid x).
            least x inside (ground arith) in
        let finite = nearest-lt s m u inv lt ok_u low in
        let near : (dist_of s u == inf) ≡ false = near_of (dist_of s u) finite in
        let miss : (u == dest) ≡ false = other_of avoid u dest ok_u shut in
        let r = relaxed track avoid src s m u inv wired lt free ok_u finite low in
        let later = visit-Inv track avoid src s m u inv wired lt free ok_u finite low in
        let fewer : count_open (visit track s u).in_shortest_path < fuel =
          rw (r.done) (omega (arith, count_open-set s.in_shortest_path u free)) in
        rw (e, near, miss, dijkstra_loop)
          (loop-lost fuel (visit track s u) (dist_of s u) later fewer)
  ]

-- If `dest` is to be avoided and every allowed node is reached, `dijkstra` reads `dist` outside of the
-- array, at the index -1 that `min_distance` is left with.
pub dijkstra-out_of_bounds :
    (track : List Node) (avoid : List Bool) (src dest : ℕ)
    → IsWired track_max track
    → src < track_max
    → get_or avoid dest true ≡ true
    → AllReached track avoid src
    → dijkstra track src dest avoid ≡ out_of_bounds
unfolding dijkstra
dijkstra-out_of_bounds track avoid src dest wired lt_src shut all =
    let s = dijkstra_start src in
    let sized = start-IsSized track avoid src wired lt_src in
    loop-lost track avoid src wired lt_src dest shut all (track_max + 1) s 0
      (start-Inv track avoid src wired lt_src)
      (omega (arith, count_open-le-length s.in_shortest_path, sized.in_shortest_path))
