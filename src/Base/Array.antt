-- ===== src/Base/Array.antt =====
-- C arrays as lists: the exchange of two entries, and the first entries of an array.
use mathlib.Core.List.{Perm, append-nil, perm_middle}
use mathlib.Core.List.Perm
use the_polling_express.Base.{
  ℕ, zero, suc, ◌≤◌, ◌<◌, ◌≡◌, refl, ap, ◌∙◌, List, [], ◌∷◌, ◌++◌, arith, get_or, set, take, length,
  length-set, get_or-set, ◌==◌, if◌then◌else◌,
}

module _ {ℓ} {A : Type ℓ} (d : A) where
  unfoldable pub swap : List A → ℕ → ℕ → List A
  swap xs i j = set (set xs i (get_or xs j d)) j (get_or xs i d)

  pub length-swap : (xs : List A) (i j : ℕ) → length (swap xs i j) ≡ length xs
  unfolding swap
  length-swap xs i j =
      length-set (set xs i (get_or xs j d)) j (get_or xs i d) ∙ length-set xs i (get_or xs j d)

  pub get_or-swap :
      (xs : List A) (i j c : ℕ)
      → i < length xs
      → j < length xs
      → get_or (swap xs i j) c d
        ≡ (if j == c then get_or xs i d else if i == c then get_or xs j d else get_or xs c d)
  unfolding swap
  get_or-swap xs i j c hi hj =
      get_or-set d (set xs i (get_or xs j d)) j c (get_or xs i d)
        (omega (arith, length-set xs i (get_or xs j d)))
      ∙ ap (λ v. if j == c then get_or xs i d else v) (get_or-set d xs i c (get_or xs j d) hi)

  pub take-set : (n : ℕ) (xs : List A) (i : ℕ) (v : A) → take n (set xs i v) ≡ set (take n xs) i v
  take-set zero xs i v = refl
  take-set (suc n) [] i v = refl
  take-set (suc n) (x ∷ xs) zero v = refl
  take-set (suc n) (x ∷ xs) (suc i) v = ap (◌∷◌ x) (take-set n xs i v)

  pub get_or-take : (n : ℕ) (xs : List A) (i : ℕ) → i < n → get_or (take n xs) i d ≡ get_or xs i d
  get_or-take zero xs i h = absurd (omega arith)
  get_or-take (suc n) [] i h = refl
  get_or-take (suc n) (x ∷ xs) zero h = refl
  get_or-take (suc n) (x ∷ xs) (suc i) h = get_or-take n xs i (omega arith)

  pub take-swap :
      (n : ℕ) (xs : List A) (i j : ℕ) → i < n → j < n → take n (swap xs i j) ≡ swap (take n xs) i j
  unfolding swap
  take-swap n xs i j hi hj =
      take-set n (set xs i (get_or xs j d)) j (get_or xs i d)
      ∙ rw (take-set n xs i (get_or xs j d), get_or-take n xs i hi, get_or-take n xs j hj)

  -- what a write puts in is traded for what stood there
  pub set-Perm :
      (xs : List A) (i : ℕ) (v : A) → i < length xs → Perm (get_or xs i d ∷ set xs i v) (v ∷ xs)
  set-Perm [] i v h = absurd (omega arith)
  set-Perm (x ∷ xs) zero v h = Perm.swap v x xs
  set-Perm (x ∷ xs) (suc i) v h =
      Perm.trans (Perm.swap x (get_or xs i d) (set xs i v))
        (Perm.trans (Perm.cons x (set-Perm xs i v (omega arith))) (Perm.swap v x xs))

  pub swap-Perm : (xs : List A) (i j : ℕ) → i < length xs → j < length xs → Perm (swap xs i j) xs
  unfolding swap
  swap-Perm xs i j hi hj =
      let once = set xs i (get_or xs j d) in
      let size = length-set xs i (get_or xs j d) in
      let same : get_or once j d ≡ get_or xs j d =
        ground (arith, get_or-set d xs i j (get_or xs j d)) in
      Perm.cons_inv (
        Perm.trans (rw same at (set-Perm once j (get_or xs i d) (omega (arith, size))))
          (set-Perm xs i (get_or xs j d) hi))

  pub take-set_end :
      (n : ℕ) (xs : List A) (v : A)
      → n < length xs
      → take (suc n) (set xs n v) ≡ take n xs ++ v ∷ []
  take-set_end n [] v h = absurd (omega arith)
  take-set_end zero (x ∷ xs) v h = refl
  take-set_end (suc n) (x ∷ xs) v h = ap (◌∷◌ x) (take-set_end n xs v (omega arith))

  pub length-take_le : (n : ℕ) (xs : List A) → n ≤ length xs → length (take n xs) ≡ n
  length-take_le zero xs h = refl
  length-take_le (suc n) [] h = absurd (omega arith)
  length-take_le (suc n) (x ∷ xs) h = ap suc (length-take_le n xs (omega arith))

  -- an exchange inside the first `n` entries permutes them
  pub take-swap_Perm :
      (n : ℕ) (xs : List A) (i j : ℕ)
      → i < n
      → j < n
      → n ≤ length xs
      → Perm (take n (swap xs i j)) (take n xs)
  take-swap_Perm n xs i j hi hj h =
      let size = length-take_le n xs h in
      rw (take-swap n xs i j hi hj)
        (swap-Perm (take n xs) i j (omega (arith, size)) (omega (arith, size)))

  pub snoc-Perm : (xs : List A) (v : A) → Perm (xs ++ v ∷ []) (v ∷ xs)
  snoc-Perm xs v = rw (append-nil xs) at (perm_middle {a = v} xs [])

  pub take-snoc :
      (n : ℕ) (xs : List A) → n < length xs → take (suc n) xs ≡ take n xs ++ get_or xs n d ∷ []
  take-snoc n [] h = absurd (omega arith)
  take-snoc zero (x ∷ xs) h = refl
  take-snoc (suc n) (x ∷ xs) h = ap (◌∷◌ x) (take-snoc n xs (omega arith))
