-- ===== src/User/Algorithms/Relax.antt =====
-- What `update_dist` of src/user/algorithms.c changes, for one edge and for all edges of a node.
use the_polling_express.Base.{
  ℕ, ◌+◌, ◌≤◌, ◌<◌, ◌≡◌, ◌⊎◌, inl, inr, refl, ap, ◌∙◌, false, Bool-cases, Option, some, none, List,
  [], ◌∷◌, get_or, get_or-set, set, length, length-set, ltb, ◌==◌, arith,
}
use the_polling_express.User.Track.Node.{inf}
use the_polling_express.User.Algorithms.{Search, dist_of, is_done, update_dist}
use the_polling_express.User.Algorithms.Graph.{HasEdge}

abbrev pub prev_of : Search → ℕ → Option ℕ
prev_of s v = get_or s.prev v none

pub record IsSized (n : ℕ) (s : Search) : Type 0 where
  pub dist : length s.dist ≡ n
  pub in_shortest_path : length s.in_shortest_path ≡ n
  pub prev : length s.prev ≡ n

-- A node keeps its distance, or gets a shorter one over an edge from `u`.
abbrev pub Shortened : Search → Search → ℕ → List (ℕ × ℕ) → ℕ → Type 0
Shortened s s' u edges x =
    (dist_of s' x ≡ dist_of s x) × (prev_of s' x ≡ prev_of s x)
    ⊎ ((w : ℕ) × HasEdge x w edges
        × (dist_of s' x ≡ dist_of s u + w)
        × (prev_of s' x ≡ some u)
        × (is_done s x ≡ false)
        × (dist_of s' x < dist_of s x))

pub record Relaxed (n : ℕ) (s s' : Search) (u : ℕ) (edges : List (ℕ × ℕ)) : Type 0 where
  pub sized : IsSized n s'
  pub done : s'.in_shortest_path ≡ s.in_shortest_path
  pub each : (x : ℕ) → Shortened s s' u edges x
  pub short :
      (v w : ℕ) → HasEdge v w edges → v < n → is_done s v ≡ false → dist_of s' v ≤ dist_of s u + w

only_edge : (v w x y : ℕ) → HasEdge x y ((v, w) ∷ []) → (v ≡ x) × (w ≡ y)
only_edge v w x y (inl e) = (ap (λ p. p.0) e, ap (λ p. p.1) e)
only_edge v w x y (inr h) = absurd h

module _ (n : ℕ) (s : Search) (u v w : ℕ) (sized : IsSized n s) (reached : dist_of s u < inf)
    (lt : v < n) where
  kept-Relaxed :
      (is_done s v ≡ false → dist_of s v ≤ dist_of s u + w) → Relaxed n s s u ((v, w) ∷ [])
  kept-Relaxed h = record {
    sized = sized;
    done = refl;
    each = λ x. inl (refl, refl);
    short = λ x y edge inside open_.
        let (e, f) = only_edge v w x y edge in let h' = h (rw e open_) in rw (← e, ← f) h';
  }

  abbrev shorter : Search
  shorter = record s { dist = set s.dist v (dist_of s u + w); prev = set s.prev v (some u) }

  shorter-Relaxed :
      is_done s v ≡ false → dist_of s u + w < dist_of s v → Relaxed n s shorter u ((v, w) ∷ [])
  shorter-Relaxed open_ less =
      let at_dist = λ (x : ℕ). get_or-set inf s.dist v x (dist_of s u + w) (rw (sized.dist) lt) in
      let at_prev = λ (x : ℕ). get_or-set none s.prev v x (some u) (rw (sized.prev) lt) in
      record {
        sized = record {
          dist = length-set s.dist v (dist_of s u + w) ∙ sized.dist;
          in_shortest_path = sized.in_shortest_path;
          prev = length-set s.prev v (some u) ∙ sized.prev;
        };
        done = refl;
        each = λ x. elim (Bool-cases (v == x)) [
          | inl hit ↦
              let k : v ≡ x = ground arith in
              inr (
                w,
                inl (ap (λ p. (p, w)) k),
                rw (at_dist x, hit) refl,
                rw (at_prev x, hit) refl,
                rw (← k) open_,
                rw (at_dist x, hit, ← k) less,
              )
          | inr miss ↦ inl (rw (at_dist x, miss) refl, rw (at_prev x, miss) refl)
        ];
        short = λ x y edge inside o.
            let (e, f) = only_edge v w x y edge in rw (← e, ← f, at_dist v) (ground arith);
      }

  pub update_dist-Relaxed : Relaxed n s (update_dist s u v w) u ((v, w) ∷ [])
  unfolding update_dist
  update_dist-Relaxed = elim (Bool-cases (is_done s v)) [
    | inl done ↦ rw done (kept-Relaxed (λ o. ground arith))
    | inr o ↦
        let finite : (dist_of s u == inf) ≡ false = ground arith in
        elim (Bool-cases (ltb (dist_of s u + w) (dist_of s v))) [
          | inl less ↦ rw (o, less, finite) (shorter-Relaxed o (ground arith))
          | inr more ↦ rw (o, more) (kept-Relaxed (λ _. ground arith))
        ]
  ]
