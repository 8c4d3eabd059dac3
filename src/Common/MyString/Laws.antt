-- ===== src/Common/MyString/Laws.antt =====
-- What the routines of src/common/my_string.c do, and what they make of their bound `n`.
use the_polling_express.Base.{
  ℕ, suc, ◌+◌, ◌≤◌, ◌<◌, ◌≡◌, ◌≢◌, ◌↔◌, refl, ap, none, some, List, [], ◌∷◌, ◌++◌, arith, drop,
  length,
}
use the_polling_express.Base.Int.{pos}
use the_polling_express.Common.MyString.{strlen, strncpy, strncmp}

drop-snd :
    {A : Type 0} (n : ℕ) (d : A) (dest : List A) → drop (n + 1) dest ≡ drop (suc n + 1) (d ∷ dest)
drop-snd n d dest = let e : suc n + 1 ≡ suc (n + 1) = omega arith in rw e refl

-- `strncpy` copies a string that fits with its 0 and leaves the rest of the buffer, and writes behind
-- the end of the buffer if the string does not fit, whatever the bound `n`.
pub strncpy_lem :
    (dest src : List ℕ) (n : ℕ)
    → (strlen src < length dest → strncpy dest src n ≡ some (src ++ 0 ∷ drop (strlen src + 1) dest))
      × (length dest ≤ strlen src → strncpy dest src n ≡ none)
unfolding strlen strncpy
strncpy_lem [] src n = (λ h. elim h [ ], λ h. refl)
strncpy_lem (d ∷ dest) [] n = (λ h. refl, λ h. elim h [ ])
strncpy_lem (d ∷ dest) (c ∷ src) n =
    let (fits, overflows) = strncpy_lem dest src n in
    (
      λ h.
          rw (fits (omega arith))
            (ap (λ r. some (c ∷ src ++ 0 ∷ r)) (drop-snd (strlen src) d dest)),
      λ h. rw (overflows (omega arith)) refl,
    )

-- `strncmp` with a bound that is not 0 answers 0 exactly for equal strings.
pub strncmp_iff : (s1 s2 : List ℕ) (n : ℕ) → n ≢ 0 → (strncmp s1 s2 n ≡ pos 0) ↔ (s1 ≡ s2)
unfolding strncmp
strncmp_iff [] [] n h = (λ e. refl, λ e. refl)
strncmp_iff (a ∷ s1) [] n h = (λ e. ground arith, λ e. ground arith)
strncmp_iff [] (b ∷ s2) n h = (λ e. ground arith, λ e. ground arith)
strncmp_iff (a ∷ s1) (b ∷ s2) n h =
    let (fwd, bwd) = strncmp_iff s1 s2 n h in (λ e. ground arith, λ e. ground arith)

-- `strncmp` looks behind its bound: strings that first differ behind a common beginning are told
-- apart, whatever the bound is.
strncmp-ignores_bound :
    (same : List ℕ) (a b : ℕ) (s1 s2 : List ℕ) (n : ℕ)
    → a ≢ b
    → strncmp (same ++ a ∷ s1) (same ++ b ∷ s2) n ≢ pos 0
unfolding strncmp
strncmp-ignores_bound [] a b s1 s2 n h = ground arith
strncmp-ignores_bound (c ∷ same) a b s1 s2 n h =
    let rest = strncmp-ignores_bound same a b s1 s2 n h in ground arith
