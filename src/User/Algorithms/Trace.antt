-- ===== src/User/Algorithms/Trace.antt =====
-- The invariant of the loop of `dijkstra` (src/user/algorithms.c), and that a round keeps it.
use the_polling_express.Base.{
  ℕ, ◌+◌, ◌≤◌, ◌<◌, ◌≡◌, inl, inr, sym, ap, ◌∙◌, true, false, Bool, Bool-cases, some, List, get_or,
  get_or-set, arith, ◌==◌, if◌then◌else◌,
}
use the_polling_express.User.Track.Node.{Node, track_max, inf}
use the_polling_express.User.Algorithms.{Search, dist_of, is_done, visit}
use the_polling_express.User.Algorithms.Graph.{
  neighbours, HasEdge, IsWired, IsAllowed, Walk, start, step, Route, origin, hop,
}
use the_polling_express.User.Algorithms.Relax.{IsSized, Relaxed, prev_of}
use the_polling_express.User.Algorithms.Visit.{Shortened-done, Shortened-le, marked, visit-Relaxed}

-- a route back over visited nodes
pub data Trace (track : List Node) (src : ℕ) (s : Search) : ℕ → ℕ → Type 0 where
  here : {v d : ℕ} → v ≡ src → d ≡ 0 → Trace track src s v d
  back :
      {u v c d : ℕ} (w : ℕ)
      → prev_of s v ≡ some u
      → u < track_max
      → is_done s u ≡ true
      → Trace track src s u c
      → HasEdge v w (neighbours track u)
      → d ≡ c + w
      → Trace track src s v d

pub Trace-Route :
    {track : List Node} {src : ℕ} {s : Search} {v d : ℕ}
    → Trace track src s v d
    → Route track s.prev src v d
Trace-Route (here e f) = origin e f
Trace-Route (back w p lt done t edge e) = hop w p (Trace-Route t) edge e

pub Trace-Walk :
    {track : List Node} {avoid : List Bool} {src : ℕ} {s : Search} {v d : ℕ}
    → ((x : ℕ) → x < track_max → is_done s x ≡ true → IsAllowed avoid x)
    → Trace track src s v d
    → Walk track avoid src v d
Trace-Walk h (here e f) = start e f
Trace-Walk h (back w p lt done t edge e) = step w (Trace-Walk h t) (h _ lt done) edge e

-- a round leaves the routes of visited nodes
Trace-later :
    {track : List Node} {src : ℕ} {s s' : Search} {v d : ℕ}
    → ((x : ℕ) → is_done s x ≡ true → (prev_of s' x ≡ prev_of s x) × (is_done s' x ≡ true))
    → prev_of s' v ≡ prev_of s v
    → Trace track src s v d
    → Trace track src s' v d
Trace-later h same (here e f) = here e f
Trace-later h same (back w p lt done t edge e) =
    back w (same ∙ p) lt (h _ done).1 (Trace-later h (h _ done).0 t) edge e

module _ (track : List Node) (avoid : List Bool) (src : ℕ) where
  -- All distances of visited nodes are at most `m`, and all others at least `m`.
  pub record Inv (s : Search) (m : ℕ) : Type 0 where
    pub sized : IsSized track_max s
    pub source : dist_of s src ≡ 0
    pub bounded : (x : ℕ) → dist_of s x ≤ inf
    pub traces : (x : ℕ) → dist_of s x < inf → Trace track src s x (dist_of s x)
    pub low : (x : ℕ) → x < track_max → is_done s x ≡ true → dist_of s x ≤ m
    pub high : (x : ℕ) → x < track_max → is_done s x ≡ false → IsAllowed avoid x → m ≤ dist_of s x
    pub closed :
        (x v w : ℕ)
        → x < track_max
        → is_done s x ≡ true
        → HasEdge v w (neighbours track x)
        → dist_of s v ≤ dist_of s x + w
    pub allowed : (x : ℕ) → x < track_max → is_done s x ≡ true → IsAllowed avoid x

  module _ (s : Search) (m u : ℕ) (inv : Inv s m) (wired : IsWired track_max track)
      (lt : u < track_max) (free : is_done s u ≡ false) (ok_u : IsAllowed avoid u)
      (reached : dist_of s u < inf)
      (least : (x : ℕ)
        → x < track_max
        → is_done s x ≡ false
        → IsAllowed avoid x
        → dist_of s u ≤ dist_of s x) where
    pub relaxed : Relaxed track_max (marked s u) (visit track s u) u (neighbours track u)
    relaxed = visit-Relaxed track_max track s u inv.sized wired lt reached

    mark_iff : (x : ℕ) → is_done (marked s u) x ≡ (if u == x then true else is_done s x)
    mark_iff x = get_or-set true s.in_shortest_path u x true (rw (inv.sized.in_shortest_path) lt)

    pub visited_iff : (x : ℕ) → is_done (visit track s u) x ≡ (if u == x then true else is_done s x)
    visited_iff x = ap (λ l. get_or l x true) relaxed.done ∙ mark_iff x

    -- what a visited node keeps
    kept :
        (x : ℕ)
        → is_done (marked s u) x ≡ true
        → (dist_of (visit track s u) x ≡ dist_of s x) × (prev_of (visit track s u) x ≡ prev_of s x)
    kept x d =
        Shortened-done (marked s u) (visit track s u) u (neighbours track u) x (relaxed.each x) d

    was_done : (x : ℕ) → is_done s x ≡ true → is_done (marked s u) x ≡ true
    was_done x d = ground (arith, mark_iff x)

    u_done : is_done (marked s u) u ≡ true
    u_done = ground (arith, mark_iff u)

    now_done : (x : ℕ) → is_done s x ≡ true → is_done (visit track s u) x ≡ true
    now_done x d = ground (arith, visited_iff x)

    later :
        (x : ℕ)
        → is_done s x ≡ true
        → (prev_of (visit track s u) x ≡ prev_of s x) × (is_done (visit track s u) x ≡ true)
    later x d = ((kept x (was_done x d)).1, now_done x d)

    below : (x : ℕ) → dist_of (visit track s u) x ≤ dist_of s x
    below x = Shortened-le (marked s u) (visit track s u) u (neighbours track u) x (relaxed.each x)

    visit-traces :
        (x : ℕ)
        → dist_of (visit track s u) x < inf
        → Trace track src (visit track s u) x (dist_of (visit track s u) x)
    visit-traces x finite = elim (relaxed.each x) [
      | inl (e, p) ↦ rw e (Trace-later later p (inv.traces x (omega (arith, e))))
      | inr (w, edge, e, p, o, less) ↦
          back w p lt (visited_iff u ∙ sym (mark_iff u) ∙ u_done)
            (Trace-later later (kept u u_done).1 (inv.traces u reached)) edge e
    ]

    visit-low :
        (x : ℕ)
        → x < track_max
        → is_done (visit track s u) x ≡ true
        → dist_of (visit track s u) x ≤ dist_of s u
    visit-low x inside d = elim (Bool-cases (u == x)) [
      | inl hit ↦ let e : u ≡ x = ground arith in rw (← e) (below u)
      | inr miss ↦
          let old : is_done s x ≡ true = ground (arith, visited_iff x) in
          omega (arith, below x, inv.low x inside old, inv.high u lt free ok_u)
    ]

    visit-high :
        (x : ℕ)
        → x < track_max
        → is_done (visit track s u) x ≡ false
        → IsAllowed avoid x
        → dist_of s u ≤ dist_of (visit track s u) x
    visit-high x inside d ok =
        let old : is_done s x ≡ false = ground (arith, visited_iff x) in
        elim (relaxed.each x) [
          | inl (e, p) ↦ omega (arith, e, least x inside old ok)
          | inr (w, edge, e, p, o, less) ↦ omega (arith, e)
        ]

    visit-closed_at :
        (v w : ℕ) → HasEdge v w (neighbours track u) → dist_of (visit track s u) v ≤ dist_of s u + w
    visit-closed_at v w edge =
        let inside = wired u v w lt edge in
        elim (Bool-cases (is_done (marked s u) v)) [
          | inl old ↦ elim (Bool-cases (u == v)) [
            | inl hit ↦ let e : u ≡ v = ground arith in rw (← e) (omega (arith, below u))
            | inr miss ↦
                let done : is_done s v ≡ true = ground (arith, mark_iff v) in
                omega (arith, below v, inv.low v inside done, inv.high u lt free ok_u)
          ]
          | inr new ↦ relaxed.short v w edge inside new
        ]

    visit-closed :
        (x v w : ℕ)
        → x < track_max
        → is_done (visit track s u) x ≡ true
        → HasEdge v w (neighbours track x)
        → dist_of (visit track s u) v ≤ dist_of (visit track s u) x + w
    visit-closed x v w inside d edge = elim (Bool-cases (u == x)) [
      | inl hit ↦
          let e : u ≡ x = ground arith in
          let edge' : HasEdge v w (neighbours track u) = rw e edge in
          rw (← e) (omega (arith, visit-closed_at v w edge', (kept u u_done).0))
      | inr miss ↦
          let old : is_done s x ≡ true = ground (arith, visited_iff x) in
          omega (arith, below v, inv.closed x v w inside old edge, (kept x (was_done x old)).0)
    ]

    pub visit-Inv : Inv (visit track s u) (dist_of s u)
    visit-Inv = record {
      sized = relaxed.sized;
      source = omega (arith, below src, inv.source);
      bounded = λ x. omega (arith, below x, inv.bounded x);
      traces = visit-traces;
      low = visit-low;
      high = visit-high;
      closed = visit-closed;
      allowed = λ x inside d. elim (Bool-cases (u == x)) [
        | inl hit ↦ let e : u ≡ x = ground arith in rw (← e) ok_u
        | inr miss ↦ inv.allowed x inside (ground (arith, visited_iff x))
      ];
    }
