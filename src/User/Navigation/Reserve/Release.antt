-- ===== src/User/Navigation/Reserve/Release.antt =====
-- Releasing nodes of src/user/navigationserver.c: what `unreserve_node` and its loops may change.
use the_polling_express.Base.{
  ℕ, zero, suc, ◌+◌, ◌≤◌, ◌<◌, ◌≡◌, ◌⊎◌, inl, inr, refl, sym, ap, replicate, length-replicate,
  get_or-replicate, ◌∙◌, true, false, Option, none, some, List, [], ◌∷◌, arith, set, length,
  length-set, get_or-set, ◌==◌, if◌then◌else◌, Bool-cases, All, dec_lt, ℕ_discrete,
}
use the_polling_express.User.Track.Node.{Node, track_max}
use the_polling_express.User.Track.Shape.{reverse_num, IsPaired}
use the_polling_express.User.Navigation.Reserve.{
  Reservations, owner, is_num, write_pair, may_free, unreserve_node, unreserve_path_src_up_to_node,
  clear_from, clear_reserved_by_train,
}

-- The table has an entry for each node, both directions of the first `n` have one owner, and the
-- others, which are not on the track, have none.
pub record IsMirrored (n : ℕ) (track : List Node) (r : Reservations) : Type 0 where
  pub size : length r.nodes ≡ track_max
  pub mirror : (i : ℕ) → i < n → owner r (reverse_num track i) ≡ owner r i
  pub outside : (i : ℕ) → n ≤ i → owner r i ≡ none

-- the table after the first loop of `navigation_server`
abbrev pub no_reservations : Reservations
no_reservations = record { nodes = replicate track_max none; dirty = false }

pub no_reservations-IsMirrored : (n : ℕ) (track : List Node) → IsMirrored n track no_reservations
no_reservations-IsMirrored n track =
    let free = get_or-replicate {A = Option ℕ} none track_max in
    record {
      size = length-replicate {A = Option ℕ} track_max none;
      mirror = λ i lt. free (reverse_num track i) ∙ sym (free i);
      outside = λ i past. free i;
    }

-- Between two tables only nodes of the train are freed, and neither direction of a freed node is
-- where the train was last registered.
abbrev pub Freed : List Node → Option ℕ → ℕ → Reservations → Reservations → Type 0
Freed track last_at train r s =
    (j : ℕ)
    → (owner s j ≡ owner r j)
      ⊎ ((owner r j ≡ some train)
          × (owner s j ≡ none)
          × (is_num last_at j ≡ false)
          × (is_num last_at (reverse_num track j) ≡ false))

-- If the train still owns `j`, it is registered at `j` or at the reverse of `j`.
abbrev pub Settled : List Node → Option ℕ → ℕ → Reservations → ℕ → Type 0
Settled track last_at train r j =
    owner r j ≡ some train
    → (is_num last_at j ≡ true) ⊎ (is_num last_at (reverse_num track j) ≡ true)

module _ (n : ℕ) (track : List Node) (small : n ≤ track_max) (paired : IsPaired n track) where
  -- the table after a write of both directions of a node
  pub owner-write_pair :
      (r : Reservations) (i j : ℕ) (v : Option ℕ)
      → length r.nodes ≡ track_max
      → i < n
      → owner (write_pair track r i v) j
        ≡ (if reverse_num track i == j then v else if i == j then v else owner r j)
  owner-write_pair r i j v size lt =
      let back = paired.reverse_in i lt in
      get_or-set none (set r.nodes i v) (reverse_num track i) j v
        (omega (arith, length-set r.nodes i v))
      ∙ ap (λ w. if reverse_num track i == j then v else w)
          (get_or-set none r.nodes i j v (omega arith))

  pub write_pair-IsMirrored :
      (r : Reservations) (i : ℕ) (v : Option ℕ)
      → i < n
      → IsMirrored n track r
      → IsMirrored n track (write_pair track r i v)
  write_pair-IsMirrored r i v lt m = record {
    size = omega (
      arith,
      length-set r.nodes i v,
      length-set (set r.nodes i v) (reverse_num track i) v,
      m.size,
    );
    mirror = λ j below. ground (
      arith,
      owner-write_pair r i j v m.size lt,
      owner-write_pair r i (reverse_num track j) v m.size lt,
      paired.reverse_back i lt,
      paired.reverse_back j below,
      m.mirror j below,
    );
    outside = λ j past.
        ground
          (arith, owner-write_pair r i j v m.size lt, paired.reverse_in i lt, m.outside j past);
  }

  module _ (last_at : Option ℕ) (train : ℕ) where
    Freed-trans :
        (r s t : Reservations)
        → Freed track last_at train r s
        → Freed track last_at train s t
        → Freed track last_at train r t
    Freed-trans r s t f g j = ground (arith, f j, g j)

    pub unreserve_node-Freed :
        (r : Reservations) (i : ℕ)
        → i < n
        → IsMirrored n track r
        → Freed track last_at train r (unreserve_node track last_at r i train)
          × IsMirrored n track (unreserve_node track last_at r i train)
    unfolding unreserve_node
    unreserve_node-Freed r i lt m = elim (Bool-cases (may_free track last_at (owner r i) i train)) [
      | inl free ↦ rw free (
        λ j.
            ground (
              arith,
              owner-write_pair r i j none m.size lt,
              paired.reverse_back i lt,
              m.mirror i lt,
            ),
        write_pair-IsMirrored r i none lt m,
      )
      | inr kept ↦ rw kept (λ j. inl refl, m)
    ]

    unreserve_node_outside :
        (r : Reservations) (i : ℕ)
        → n ≤ i
        → IsMirrored n track r
        → unreserve_node track last_at r i train ≡ r
    unfolding unreserve_node
    unreserve_node_outside r i past m = rw (m.outside i past)

    -- one round of `clear_reserved_by_train`, whatever the node
    unreserve_any-Freed :
        (r : Reservations) (i : ℕ)
        → IsMirrored n track r
        → Freed track last_at train r (unreserve_node track last_at r i train)
          × IsMirrored n track (unreserve_node track last_at r i train)
    unreserve_any-Freed r i m = elim (dec_lt i n) [
      | yes lt ↦ unreserve_node-Freed r i lt m
      | no past ↦ rw (unreserve_node_outside r i (omega arith) m) (λ j. inl refl, m)
    ]

    Settled-Freed :
        (r s : Reservations) (j : ℕ)
        → Freed track last_at train r s
        → Settled track last_at train r j
        → Settled track last_at train s j
    Settled-Freed r s j f h e = h (ground (arith, f j))

    unreserve_node-Settled :
        (r : Reservations) (i : ℕ)
        → IsMirrored n track r
        → Settled track last_at train (unreserve_node track last_at r i train) i
    unfolding unreserve_node
    unreserve_node-Settled r i m = elim (dec_lt i n) [
      | yes lt ↦ λ e. ground (arith, owner-write_pair r i i none m.size lt)
      | no past ↦ λ e. ground (arith, m.outside i)
    ]

    clear_from-Settled :
        (r : Reservations) (i rounds : ℕ)
        → IsMirrored n track r
        → ((j : ℕ) → j < i → Settled track last_at train r j)
        → let s = clear_from track last_at r train i rounds in
          Freed track last_at train r s
          × IsMirrored n track s
          × ((j : ℕ) → j < i + rounds → Settled track last_at train s j)
    unfolding clear_from
    clear_from-Settled r i zero m h = (λ j. inl refl, m, λ j lt. h j (omega arith))
    clear_from-Settled r i (suc rounds) m h =
        let (freed, mirrored) = unreserve_any-Freed r i m in
        let step = unreserve_node track last_at r i train in
        let (f, m', settled) = clear_from-Settled step (i + 1) rounds mirrored (before freed) in
        (
          Freed-trans r step (clear_from track last_at step train (i + 1) rounds) freed f,
          m',
          λ j lt. settled j (omega arith),
        )
      where
        before :
            Freed track last_at train r (unreserve_node track last_at r i train)
            → (j : ℕ) → j < i + 1
            → Settled track last_at train (unreserve_node track last_at r i train) j
        before freed j lt = elim (ℕ_discrete j i) [
          | yes e ↦ rw e (unreserve_node-Settled r i m)
          | no ne ↦
              Settled-Freed r (unreserve_node track last_at r i train) j freed (h j (omega arith))
        ]

    -- `clear_reserved_by_train` frees nodes of the train alone, keeps the table mirrored, and leaves
    -- the train no node but the one where it was last registered and its reverse.
    pub clear_reserved_by_train_lem :
        (r : Reservations)
        → IsMirrored n track r
        → let s = clear_reserved_by_train track last_at r train in
          Freed track last_at train r s
          × IsMirrored n track s
          × ((j : ℕ) → Settled track last_at train s j)
    unfolding clear_reserved_by_train
    clear_reserved_by_train_lem r m =
        let (f, m', settled) = clear_from-Settled r 0 track_max m (λ j lt. elim lt [ ]) in
        (
          f,
          m',
          λ j. elim (dec_lt j n) [
            | yes lt ↦ settled j (omega arith)
            | no past ↦ λ e. ground (arith, m'.outside j)
          ],
        )

    -- `unreserve_path_src_up_to_node` frees nodes of the train alone, and keeps the table mirrored.
    pub unreserve_path_src_up_to_node-Freed :
        (r : Reservations) (path : List ℕ) (node_num : ℕ)
        → All (λ i. i < n) path
        → IsMirrored n track r
        → let s = unreserve_path_src_up_to_node track last_at r path node_num train in
          Freed track last_at train r s × IsMirrored n track s
    unfolding unreserve_path_src_up_to_node
    unreserve_path_src_up_to_node-Freed r [] node_num h m = (λ j. inl refl, m)
    unreserve_path_src_up_to_node-Freed r (i ∷ path) node_num h m =
        let (freed, mirrored) = unreserve_node-Freed r i h.0 m in
        elim (Bool-cases (i == node_num)) [
          | inl last ↦ rw last (freed, mirrored)
          | inr more ↦
              let step = unreserve_node track last_at r i train in
              let (f, m') = unreserve_path_src_up_to_node-Freed step path node_num h.1 mirrored in
              rw more (
                Freed-trans r step
                    (unreserve_path_src_up_to_node track last_at step path node_num train) freed f,
                m',
              )
        ]
