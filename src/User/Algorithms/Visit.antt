-- ===== src/User/Algorithms/Visit.antt =====
-- One round of `dijkstra` of src/user/algorithms.c: the updates along all edges of a node.
use the_polling_express.Base.{
  ℕ, ◌≤◌, ◌<◌, ◌≡◌, ◌⊎◌, inl, inr, refl, sym, ap, ◌∙◌, true, List, [], ◌∷◌, ◌++◌, Has-append_left,
  Has-append_right, get_or, get_or-set_self, set, length-set, arith,
}
use the_polling_express.User.Track.Node.{
  NodeType, node_none, node_sensor, node_branch, node_merge, node_enter, node_exit, Node, inf,
}
use the_polling_express.User.Track.Shape.{at, index}
use the_polling_express.User.Algorithms.{Search, dist_of, is_done, update_dist, update_ahead, visit}
use the_polling_express.User.Algorithms.Graph.{ahead_of, neighbours, HasEdge, IsWired}
use the_polling_express.User.Algorithms.Relax.{
  IsSized, Shortened, Relaxed, prev_of, update_dist-Relaxed,
}

pub Shortened-le :
    (s s' : Search) (u : ℕ) (es : List (ℕ × ℕ)) (x : ℕ)
    → Shortened s s' u es x
    → dist_of s' x ≤ dist_of s x
Shortened-le s s' u es x (inl (e, _)) = omega (arith, e)
Shortened-le s s' u es x (inr (w, h, e, p, o, less)) = omega (arith, less)

-- a node whose distance is final keeps it
pub Shortened-done :
    (s s' : Search) (u : ℕ) (es : List (ℕ × ℕ)) (x : ℕ)
    → Shortened s s' u es x
    → is_done s x ≡ true
    → (dist_of s' x ≡ dist_of s x) × (prev_of s' x ≡ prev_of s x)
Shortened-done s s' u es x (inl same) d = same
Shortened-done s s' u es x (inr (w, h, e, p, o, less)) d = absurd (ground arith)

HasEdge-cases :
    (v w : ℕ) (es fs : List (ℕ × ℕ)) → HasEdge v w (es ++ fs) → HasEdge v w es ⊎ HasEdge v w fs
HasEdge-cases v w [] fs h = inr h
HasEdge-cases v w (a ∷ es) fs (inl e) = inl (inl e)
HasEdge-cases v w (a ∷ es) fs (inr h) = elim (HasEdge-cases v w es fs h) [
  | inl k ↦ inl (inr k)
  | inr k ↦ inr k
]

same_source :
    (n : ℕ) (s s1 : Search) (u : ℕ) (es : List (ℕ × ℕ))
    → is_done s u ≡ true
    → Relaxed n s s1 u es
    → dist_of s1 u ≡ dist_of s u
same_source n s s1 u es done r = (Shortened-done s s1 u es u (r.each u) done).0

module _ (n : ℕ) (s s1 s2 : Search) (u : ℕ) (es fs : List (ℕ × ℕ)) (done : is_done s u ≡ true)
    (r : Relaxed n s s1 u es) (q : Relaxed n s1 s2 u fs) where
  same_done : (x : ℕ) → is_done s1 x ≡ is_done s x
  same_done x = ap (λ l. get_or l x true) r.done

  Shortened-trans :
      (x : ℕ) → Shortened s s1 u es x → Shortened s1 s2 u fs x → Shortened s s2 u (es ++ fs) x
  Shortened-trans x (inl (e, p)) (inl (f, k)) = inl (f ∙ e, k ∙ p)
  Shortened-trans x (inl (e, p)) (inr (w, h, f, k, o, less)) = inr (
    w,
    Has-append_right (x, w) es fs h,
    omega (arith, f, same_source n s s1 u es done r),
    k,
    sym (same_done x) ∙ o,
    omega (arith, e),
  )
  Shortened-trans x (inr (w, h, e, p, o, less)) (inl (f, k)) =
      inr (w, Has-append_left (x, w) es fs h, f ∙ e, k ∙ p, o, omega (arith, f))
  Shortened-trans x (inr (w, h, e, p, o, less)) (inr (w', h', f, k, o', less')) = inr (
    w',
    Has-append_right (x, w') es fs h',
    omega (arith, f, same_source n s s1 u es done r),
    k,
    o,
    omega arith,
  )

  Relaxed-trans : Relaxed n s s2 u (es ++ fs)
  Relaxed-trans = record {
    sized = q.sized;
    done = q.done ∙ r.done;
    each = λ x. Shortened-trans x (r.each x) (q.each x);
    short = λ v w h lt o. elim (HasEdge-cases v w es fs h) [
      | inl k ↦ omega (arith, r.short v w k lt o, Shortened-le s1 s2 u fs v (q.each v))
      | inr k ↦ omega (arith, q.short v w k lt (same_done v ∙ o), same_source n s s1 u es done r)
    ];
  }

Relaxed-nil : (n : ℕ) (s : Search) (u : ℕ) → IsSized n s → Relaxed n s s u []
Relaxed-nil n s u sized = record {
  sized = sized;
  done = refl;
  each = λ x. inl (refl, refl);
  short = λ v w h lt o. absurd h;
}

module _ (n : ℕ) (s : Search) (u : ℕ) (nd : Node) (sized : IsSized n s) (done : is_done s u ≡ true)
    (reached : dist_of s u < inf) where
  update_ahead-Relaxed :
      (t : NodeType)
      → ((v w : ℕ) → HasEdge v w (ahead_of t nd) → v < n)
      → Relaxed n s (update_ahead t nd s u) u (ahead_of t nd)
  unfolding update_ahead
  update_ahead-Relaxed node_none inside = Relaxed-nil n s u sized
  update_ahead-Relaxed node_exit inside = Relaxed-nil n s u sized
  update_ahead-Relaxed node_sensor inside =
      update_dist-Relaxed n s u (index nd.ahead.dest) nd.ahead.dist sized reached
        (inside _ _ (inl refl))
  update_ahead-Relaxed node_merge inside =
      update_dist-Relaxed n s u (index nd.ahead.dest) nd.ahead.dist sized reached
        (inside _ _ (inl refl))
  update_ahead-Relaxed node_enter inside =
      update_dist-Relaxed n s u (index nd.ahead.dest) nd.ahead.dist sized reached
        (inside _ _ (inl refl))
  update_ahead-Relaxed node_branch inside =
      let d = nd.ahead.dist in
      let v = index nd.ahead.dest in
      let one = update_dist s u v d in
      let first = update_dist-Relaxed n s u v d sized reached (inside _ _ (inl refl)) in
      let still : dist_of one u < inf =
        omega (arith, same_source n s one u ((v, d) ∷ []) done first) in
      let c = index nd.curved.dest in
      Relaxed-trans n s one (update_dist one u c nd.curved.dist) u ((v, d) ∷ [])
        ((c, nd.curved.dist) ∷ []) done first
        (update_dist-Relaxed n one u c nd.curved.dist first.sized still
          (inside _ _ (inr (inl refl))))

-- the search with `u` in the shortest paths
abbrev pub marked : Search → ℕ → Search
marked s u = record s { in_shortest_path = set s.in_shortest_path u true }

pub visit-Relaxed :
    (n : ℕ) (track : List Node) (s : Search) (u : ℕ)
    → IsSized n s
    → IsWired n track
    → u < n
    → dist_of s u < inf
    → Relaxed n (marked s u) (visit track s u) u (neighbours track u)
unfolding visit
visit-Relaxed n track s u sized wired lt reached =
    let nd = at track u in
    let start = marked s u in
    let sized' : IsSized n start = record {
      dist = sized.dist;
      in_shortest_path = length-set s.in_shortest_path u true ∙ sized.in_shortest_path;
      prev = sized.prev;
    } in
    let done = get_or-set_self true s.in_shortest_path u true (rw (sized.in_shortest_path) lt) in
    let back : List (ℕ × ℕ) = (index nd.reverse, 300) ∷ [] in
    let one = update_ahead nd.type nd start u in
    let first =
      update_ahead-Relaxed n start u nd sized' done reached nd.type
        (λ v w h. wired u v w lt (Has-append_left (v, w) (ahead_of nd.type nd) back h)) in
    let still : dist_of one u < inf =
      omega (arith, same_source n start one u (ahead_of nd.type nd) done first) in
    Relaxed-trans n start one (update_dist one u (index nd.reverse) 300) u (ahead_of nd.type nd)
      back done first
      (update_dist-Relaxed n one u (index nd.reverse) 300 first.sized still (
        wired u (index nd.reverse) 300 lt
          (Has-append_right (index nd.reverse, 300) (ahead_of nd.type nd) back (inl refl))))
