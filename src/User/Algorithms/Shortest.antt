-- ===== src/User/Algorithms/Shortest.antt =====
-- `dijkstra` of src/user/algorithms.c against the walks of the track.
use the_polling_express.Base.{
  ℕ, zero, suc, ◌+◌, ◌≤◌, ◌<◌, ◌≡◌, ◌⊎◌, inl, inr, refl, ap, ◌∙◌, true, false, Bool, Bool-cases,
  Option-cases, Option, none, List, [], ◌∷◌, get_or, get_or-set, get_or-replicate, set, replicate,
  length, length-replicate, length-set, arith, ◌==◌, ==_iff, if◌then◌else◌,
}
use mathlib.Core.Path.{subst}
use the_polling_express.Base.Int.{ℤ, pos, negsuc}
use the_polling_express.Base.Outcome.{ok}
use the_polling_express.User.Track.Node.{Node, track_max, inf}
use the_polling_express.User.Algorithms.{
  Search, dist_of, is_done, min_distance, visit, dijkstra_loop, dijkstra_start, dijkstra,
}
use the_polling_express.User.Algorithms.Graph.{IsWired, IsAllowed, Walk, start, step, Route}
use the_polling_express.User.Algorithms.Nearest.{Nearest, min_distance-Nearest}
use the_polling_express.User.Algorithms.Relax.{IsSized}
use the_polling_express.User.Algorithms.Trace.{
  Inv, visit-Inv, relaxed, visited_iff, here, Trace-Route, Trace-Walk,
}

-- the entries that are false
pub count_open : List Bool → ℕ
count_open [] = 0
count_open (true ∷ l) = count_open l
count_open (false ∷ l) = suc (count_open l)

pub count_open-set :
    (l : List Bool) (u : ℕ) → get_or l u true ≡ false → count_open (set l u true) < count_open l
unfolding count_open
count_open-set [] u h = absurd (ground arith)
count_open-set (true ∷ l) zero h = absurd (ground arith)
count_open-set (false ∷ l) zero h = omega arith
count_open-set (true ∷ l) (suc u) h = count_open-set l u h
count_open-set (false ∷ l) (suc u) h = omega (arith, count_open-set l u h)

pub count_open-le-length : (l : List Bool) → count_open l ≤ length l
unfolding count_open
count_open-le-length [] = omega arith
count_open-le-length (true ∷ l) = omega (arith, count_open-le-length l)
count_open-le-length (false ∷ l) = omega (arith, count_open-le-length l)

get_or-replicate_in : (n i : ℕ) (a b : Bool) → i < n → get_or (replicate n a) i b ≡ a
get_or-replicate_in zero i a b lt = absurd (omega arith)
get_or-replicate_in (suc n) zero a b lt = refl
get_or-replicate_in (suc n) (suc i) a b lt = get_or-replicate_in n i a b (omega arith)

far-le : (a : ℕ) → (a == inf) ≡ true → (c : ℕ) → a ≤ c → inf ≤ c
far-le a e c le = ground arith

finite_of : (a : ℕ) → (a == inf) ≡ false → a ≤ inf → a < inf
finite_of a e le = ground arith

-- What the two results say: the length of a shortest walk that `prev` leads back, or, with -1, that no
-- walk to `dest` is shorter than `inf`. There is no other result.
abbrev pub IsAnswer : List Node → List Bool → ℕ → ℕ → ℤ × List (Option ℕ) → Type 0
IsAnswer track avoid src dest (pos d, prev) =
    Walk track avoid src dest d
    × Route track prev src dest d
    × ((c : ℕ) → Walk track avoid src dest c → d ≤ c)
IsAnswer track avoid src dest (negsuc zero, prev) = (c : ℕ) → Walk track avoid src dest c → inf ≤ c
IsAnswer track avoid src dest (negsuc (suc n), prev) = ⊥

module _ (track : List Node) (avoid : List Bool) (src : ℕ) (wired : IsWired track_max track)
    (lt_src : src < track_max) where
  Walk-inside : {v d : ℕ} → Walk track avoid src v d → v < track_max
  Walk-inside (start e f) = rw e lt_src
  Walk-inside (step {u} {v} w p allowed edge e) = wired u v w (Walk-inside p) edge

  -- Every walk is as long as the distance found, or as the least one of an unvisited node.
  pub Walk-lower :
      (s : Search) (m least : ℕ)
      → Inv track avoid src s m
      → ((x : ℕ) → x < track_max → is_done s x ≡ false → IsAllowed avoid x → least ≤ dist_of s x)
      → {v d : ℕ} → Walk track avoid src v d
      → (dist_of s v ≤ d) ⊎ (least ≤ d)
  Walk-lower s m least inv low (start e f) = inl (rw (e, f) (omega (arith, inv.source)))
  Walk-lower s m least inv low (step {u} {v} {c} w p allowed edge e) =
      elim (Walk-lower s m least inv low p) [
        | inr le ↦ inr (omega arith)
        | inl le ↦ elim (Bool-cases (is_done s u)) [
          | inl done ↦ inl (omega (arith, inv.closed u v w (Walk-inside p) done edge))
          | inr free ↦ inr (omega (arith, low u (Walk-inside p) free allowed))
        ]
      ]

  pub start-IsSized : IsSized track_max (dijkstra_start src)
  unfolding dijkstra_start
  start-IsSized = record {
    dist = length-set (replicate track_max inf) src 0;
    in_shortest_path = length-replicate track_max false;
    prev = length-replicate {A = Option ℕ} track_max none;
  }

  start-dist : (x : ℕ) → dist_of (dijkstra_start src) x ≡ (if src == x then 0 else inf)
  unfolding dijkstra_start
  start-dist x =
      get_or-set inf (replicate track_max inf) src x 0 lt_src
      ∙ ap (λ d. if src == x then 0 else d) (get_or-replicate inf track_max x)

  start-done : (x : ℕ) → x < track_max → is_done (dijkstra_start src) x ≡ false
  unfolding dijkstra_start
  start-done x lt = get_or-replicate_in track_max x false true lt

  pub start-Inv : Inv track avoid src (dijkstra_start src) 0
  start-Inv = record {
    sized = start-IsSized;
    source = ground (arith, start-dist src);
    bounded = λ x. ground (arith, start-dist x);
    traces = λ x finite.
        let e : x ≡ src = ground (arith, start-dist x) in here e (ground (arith, start-dist x));
    low = λ x lt d. absurd (ground (arith, start-done x lt));
    high = λ x lt d ok. omega arith;
    closed = λ x v w lt d edge. absurd (ground (arith, start-done x lt));
    allowed = λ x lt d. absurd (ground (arith, start-done x lt));
  }

  module _ (dest : ℕ) (lt_dest : dest < track_max) (goal_free : IsAllowed avoid dest) where
    -- no walk to `dest` is shorter than the way to the nearest unvisited node
    dest-lower :
        (s : Search) (m u : ℕ)
        → Inv track avoid src s m
        → is_done s dest ≡ false
        → ((x : ℕ)
            → x < track_max
            → is_done s x ≡ false
            → IsAllowed avoid x
            → dist_of s u ≤ dist_of s x)
        → (c : ℕ) → Walk track avoid src dest c
        → dist_of s u ≤ c
    dest-lower s m u inv waits low c p = elim (Walk-lower s m (dist_of s u) inv low p) [
      | inl le ↦ omega (arith, low dest lt_dest waits goal_free)
      | inr le ↦ le
    ]

    goal-IsAnswer :
        (s : Search) (m u : ℕ)
        → Inv track avoid src s m
        → dist_of s u < inf
        → u ≡ dest
        → ((c : ℕ) → Walk track avoid src dest c → dist_of s u ≤ c)
        → IsAnswer track avoid src dest (pos (dist_of s u), s.prev)
    goal-IsAnswer s m u inv finite same least =
        let trace = inv.traces u finite in
        (
          subst (λ k. Walk track avoid src k (dist_of s u)) same (Trace-Walk inv.allowed trace),
          subst (λ k. Route track s.prev src k (dist_of s u)) same (Trace-Route trace),
          least,
        )

    loop-IsAnswer :
        (fuel : ℕ) (s : Search) (m : ℕ)
        → Inv track avoid src s m
        → is_done s dest ≡ false
        → count_open s.in_shortest_path < fuel
        → (r : ℤ × List (Option ℕ)) × (dijkstra_loop fuel track dest avoid s ≡ ok r)
          × IsAnswer track avoid src dest r
    unfolding dijkstra_loop
    loop-IsAnswer zero s m inv waits enough = absurd (omega arith)
    loop-IsAnswer (suc fuel) s m inv waits enough = elim (Option-cases (min_distance s avoid)) [
      | inl e ↦ absurd (
          ground (
            arith,
            (subst (Nearest s avoid track_max) e (min_distance-Nearest s avoid)) dest lt_dest,
          ))
      | inr (u, e) ↦
          let (lt, may, least) =
            subst (Nearest s avoid track_max) e (min_distance-Nearest s avoid) in
          let free : is_done s u ≡ false = ground arith in
          let ok_u : IsAllowed avoid u = ground arith in
          let low =
            λ (x : ℕ) (inside : x < track_max) (o : is_done s x ≡ false) (ok_x : IsAllowed avoid x).
              least x inside (ground arith) in
          elim (Bool-cases (dist_of s u == inf)) [
            | inl far ↦
                rw (e, far, dijkstra_loop)
                  (
                    (negsuc 0, s.prev),
                    refl,
                    λ c p. far-le (dist_of s u) far c (dest-lower s m u inv waits low c p),
                  )
            | inr near ↦
                let finite = finite_of (dist_of s u) near (inv.bounded u) in
                elim (Bool-cases (u == dest)) [
                  | inl hit ↦
                      rw (e, near, hit, dijkstra_loop)
                        (
                          (pos (dist_of s u), s.prev),
                          refl,
                          goal-IsAnswer s m u inv finite ((==_iff u dest).0 hit)
                              (dest-lower s m u inv waits low),
                        )
                  | inr miss ↦
                      let r = relaxed track avoid src s m u inv wired lt free ok_u finite low in
                      let later =
                        visit-Inv track avoid src s m u inv wired lt free ok_u finite low in
                      let waits' : is_done (visit track s u) dest ≡ false =
                        visited_iff track avoid src s m u inv wired lt free ok_u finite low dest
                        ∙ rw (miss, waits) refl in
                      let fewer : count_open (visit track s u).in_shortest_path < fuel =
                        rw (r.done) (omega (arith, count_open-set s.in_shortest_path u free)) in
                      rw (e, near, miss, dijkstra_loop)
                        (loop-IsAnswer fuel (visit track s u) (dist_of s u) later waits' fewer)
                ]
          ]
    ]

-- `dijkstra` returns for every track whose edges end at its nodes, if `dest` may be visited: with the
-- length of a shortest walk from `src` to `dest` that leaves allowed nodes only, along which `prev` leads
-- back, or with -1 if every such walk is as long as `inf`.
pub dijkstra-IsAnswer :
    (track : List Node) (src dest : ℕ) (avoid : List Bool)
    → IsWired track_max track
    → src < track_max
    → dest < track_max
    → IsAllowed avoid dest
    → (r : ℤ × List (Option ℕ)) × (dijkstra track src dest avoid ≡ ok r)
      × IsAnswer track avoid src dest r
unfolding dijkstra
dijkstra-IsAnswer track src dest avoid wired lt_src lt_dest free =
    let s = dijkstra_start src in
    let sized = start-IsSized track avoid src wired lt_src in
    loop-IsAnswer track avoid src wired lt_src dest lt_dest free (track_max + 1) s 0
      (start-Inv track avoid src wired lt_src)
      (start-done track avoid src wired lt_src dest lt_dest)
      (omega (arith, count_open-le-length s.in_shortest_path, sized.in_shortest_path))
