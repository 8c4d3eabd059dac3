-- ===== src/User/Navigation/Reserve/Claim.antt =====
-- Reserving a path of src/user/navigationserver.c: `can_reserve_segment` and `reserve_path`.
use the_polling_express.Base.{
  ℕ, ◌≤◌, ◌<◌, ◌≡◌, ◌↔◌, ◌⊎◌, inl, refl, true, none, some, List, [], ◌∷◌, arith, All,
}
use the_polling_express.User.Track.Node.{Node, track_max}
use the_polling_express.User.Track.Shape.{reverse_num, IsPaired}
use the_polling_express.User.Navigation.Reserve.{
  Reservations, owner, can_reserve_segment, reserve_node, reserve_path,
}
use the_polling_express.User.Navigation.Reserve.Release.{
  IsMirrored, owner-write_pair, write_pair-IsMirrored,
}

-- `can_reserve_segment` tells exactly whether each node of the path is free or the train's own.
pub can_reserve_segment_iff :
    (r : Reservations) (path : List ℕ) (train : ℕ)
    → (can_reserve_segment r path train ≡ true)
      ↔ All (λ i. (owner r i ≡ none) ⊎ (owner r i ≡ some train)) path
unfolding can_reserve_segment
can_reserve_segment_iff r [] train = (λ h. tt, λ h. refl)
can_reserve_segment_iff r (i ∷ path) train =
    let (fwd, bwd) = can_reserve_segment_iff r path train in
    (λ h. (ground arith, fwd (ground arith)), λ h. let e = bwd h.1 in ground arith)

-- Node `j` or its reverse is on the path.
abbrev pub OnPath : List Node → List ℕ → ℕ → Type 0
OnPath track [] j = ⊥
OnPath track (i ∷ path) j = ((j ≡ i) ⊎ (j ≡ reverse_num track i)) ⊎ OnPath track path j

-- Between two tables the train took free nodes of the path, in both directions, and nothing else changed.
abbrev pub Taken : List Node → List ℕ → ℕ → Reservations → Reservations → Type 0
Taken track path train r s =
    (j : ℕ)
    → (owner s j ≡ owner r j)
      ⊎ (OnPath track path j × (owner r j ≡ none) × (owner s j ≡ some train))

-- both directions of a node belong to the train
abbrev pub Holds : List Node → ℕ → Reservations → ℕ → Type 0
Holds track train r i = (owner r i ≡ some train) × (owner r (reverse_num track i) ≡ some train)

module _ (n : ℕ) (track : List Node) (small : n ≤ track_max) (paired : IsPaired n track)
    (train : ℕ) where
  reserve_node-Taken :
      (r : Reservations) (i : ℕ)
      → i < n
      → ((owner r i ≡ none) ⊎ (owner r i ≡ some train))
      → IsMirrored n track r
      → let s = reserve_node track r i train in
        Taken track (i ∷ []) train r s × IsMirrored n track s × Holds track train s i
  unfolding reserve_node
  reserve_node-Taken r i lt free m = (
    λ j.
        ground (
          arith,
          owner-write_pair n track small paired r i j (some train) m.size lt,
          m.mirror i lt,
        ),
    write_pair-IsMirrored n track small paired r i (some train) lt m,
    (
      ground (arith, owner-write_pair n track small paired r i i (some train) m.size lt),
      ground (
        arith,
        owner-write_pair n track small paired r i (reverse_num track i) (some train) m.size lt,
      ),
    ),
  )

  Holds-Taken :
      (r s : Reservations) (path : List ℕ) (i : ℕ)
      → Taken track path train r s
      → Holds track train r i
      → Holds track train s i
  Holds-Taken r s path i t h = (ground (arith, t i), ground (arith, t (reverse_num track i)))

  free-Taken :
      (r s : Reservations) (taken path : List ℕ)
      → Taken track taken train r s
      → All (λ i. (owner r i ≡ none) ⊎ (owner r i ≡ some train)) path
      → All (λ i. (owner s i ≡ none) ⊎ (owner s i ≡ some train)) path
  free-Taken r s taken [] t h = tt
  free-Taken r s taken (i ∷ path) t h = (ground (arith, t i), free-Taken r s taken path t h.1)

  reserve_free-Taken :
      (r : Reservations) (path : List ℕ)
      → All (λ i. i < n) path
      → All (λ i. (owner r i ≡ none) ⊎ (owner r i ≡ some train)) path
      → IsMirrored n track r
      → let s = reserve_path track r path train in
        Taken track path train r s × IsMirrored n track s × All (Holds track train s) path
  unfolding reserve_path
  reserve_free-Taken r [] inside free m = (λ j. inl refl, m, tt)
  reserve_free-Taken r (i ∷ path) inside free m =
      let (taken, mirrored, holds) = reserve_node-Taken r i inside.0 free.0 m in
      let step = reserve_node track r i train in
      let last = reserve_path track step path train in
      let (t, m', all) =
        reserve_free-Taken step path inside.1 (free-Taken r step (i ∷ []) path taken free.1)
          mirrored in
      (λ j. ground (arith, taken j, t j), m', (Holds-Taken step last path i t holds, all))

  -- On a mirrored table `reserve_path` on a path of nodes of the track that may be reserved gives the train
  -- both directions of each node of the path, changes no entry but those of the path's nodes and their
  -- reverses that were free, and keeps the table mirrored.
  pub reserve_path_lem :
      (r : Reservations) (path : List ℕ)
      → All (λ i. i < n) path
      → can_reserve_segment r path train ≡ true
      → IsMirrored n track r
      → let s = reserve_path track r path train in
        Taken track path train r s × IsMirrored n track s × All (Holds track train s) path
  reserve_path_lem r path inside can m =
      reserve_free-Taken r path inside ((can_reserve_segment_iff r path train).0 can) m
