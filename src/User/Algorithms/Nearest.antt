-- ===== src/User/Algorithms/Nearest.antt =====
-- `min_distance` of src/user/algorithms.c: the node that the search visits next.
use the_polling_express.Base.{
  ℕ, zero, suc, ◌+◌, ◌≤◌, ◌<◌, ◌≡◌, inl, inr, true, false, Bool, Bool-cases, ◌&&◌, Option, some,
  none, List, ltb, ◌==◌, arith,
}
use mathlib.Core.Path.{subst}
use the_polling_express.User.Track.Node.{track_max}
use the_polling_express.User.Algorithms.{Search, dist_of, may_visit, nearer, min_loop, min_distance}

-- what `min_index` is after the first `i` nodes
abbrev pub Nearest : Search → List Bool → ℕ → Option ℕ → Type 0
Nearest s avoid i none = (x : ℕ) → x < i → may_visit s avoid x ≡ false
Nearest s avoid i (some u) =
    (u < i)
    × (may_visit s avoid u ≡ true)
    × ((x : ℕ) → x < i → may_visit s avoid x ≡ true → dist_of s u ≤ dist_of s x)

module _ (s : Search) (avoid : List Bool) where
  first-Nearest : (i : ℕ) → Nearest s avoid i none → Nearest s avoid (i + 1) (nearer s avoid i none)
  first-Nearest i h = elim (Bool-cases (may_visit s avoid i)) [
    | inl free ↦ rw free (
      omega arith,
      free,
      λ x lt may. elim (Bool-cases (x == i)) [
        | inl here ↦ ground arith
        | inr there ↦ absurd (ground (arith, h x))
      ],
    )
    | inr taken ↦ rw taken (λ x lt. elim (Bool-cases (x == i)) [
      | inl here ↦ ground arith
      | inr there ↦ h x (ground arith)
    ])
  ]

  next-Nearest :
      (i m : ℕ) → Nearest s avoid i (some m) → Nearest s avoid (i + 1) (nearer s avoid i (some m))
  next-Nearest i m (lt, may, h) =
      elim (Bool-cases (ltb (dist_of s i) (dist_of s m) && may_visit s avoid i)) [
        | inl better ↦ rw better (
          omega arith,
          ground arith,
          λ x below free. elim (Bool-cases (x == i)) [
            | inl here ↦ let e : x ≡ i = ground arith in rw e (omega arith)
            | inr there ↦ ground (arith, h x)
          ],
        )
        | inr worse ↦ rw worse (
          omega arith,
          may,
          λ x below free. elim (Bool-cases (x == i)) [
            | inl here ↦
                let e : i ≡ x = ground arith in
                let same =
                  subst (λ k. (ltb (dist_of s k) (dist_of s m) && may_visit s avoid k) ≡ false) e
                    worse in
                ground arith
            | inr there ↦ h x (ground arith) free
          ],
        )
      ]

  min_loop-Nearest :
      (rounds i : ℕ) (m : Option ℕ)
      → Nearest s avoid i m
      → Nearest s avoid (rounds + i) (min_loop s avoid rounds i m)
  unfolding min_loop
  min_loop-Nearest zero i m h = let e : zero + i ≡ i = omega arith in rw e h
  min_loop-Nearest (suc rounds) i none h =
      let e : suc rounds + i ≡ rounds + (i + 1) = omega arith in
      rw e (min_loop-Nearest rounds (i + 1) (nearer s avoid i none) (first-Nearest i h))
  min_loop-Nearest (suc rounds) i (some m) h =
      let e : suc rounds + i ≡ rounds + (i + 1) = omega arith in
      rw e (min_loop-Nearest rounds (i + 1) (nearer s avoid i (some m)) (next-Nearest i m h))

  pub min_distance-Nearest : Nearest s avoid track_max (min_distance s avoid)
  unfolding min_distance
  min_distance-Nearest = min_loop-Nearest track_max 0 none (λ x lt. absurd (omega arith))
