-- ===== src/Kernel/Messages/Chain.antt =====
-- The chain of the tasks that wait to send to a task, linked by `next` from `want_send` to
-- `want_send_end`, as the list of these tasks.
use mathlib.Core.Path.{subst}
use the_polling_express.Base.{
  ℕ, ◌<◌, ◌≡◌, ◌≢◌, refl, sym, ap, ◌∙◌, Option, none, some, List, [], ◌∷◌, ◌++◌, All, arith, length,
  get_or-set, get_or-set_self, Bool-cases, false, ◌==◌, inl, inr,
}
use the_polling_express.Kernel.Task.{Tcb, no_tcb}
use the_polling_express.Kernel.Scheduler.{block}
use the_polling_express.Kernel.Messages.{modify}

-- a chain from `start` to NULL
abbrev pub IsChain : (ℕ → Option ℕ) → Option ℕ → List ℕ → Type 0
IsChain next start [] = start ≡ none
IsChain next start (p ∷ ps) = (start ≡ some p) × IsChain next (next p) ps

abbrev pub last_of : List ℕ → Option ℕ
last_of [] = none
last_of (p ∷ []) = some p
last_of (p ∷ q ∷ ps) = last_of (q ∷ ps)

abbrev pub Distinct : List ℕ → Type 0
Distinct [] = Unit
Distinct (p ∷ ps) = All (λ q. q ≢ p) ps × Distinct ps

abbrev pub next_of : List Tcb → ℕ → Option ℕ
next_of blocks p = (block blocks p).next

-- The tasks `ps` wait to send to the task `t`, the first of them longest.
pub record IsWaiting (blocks : List Tcb) (t : ℕ) (ps : List ℕ) : Type 0 where
  pub chain : IsChain (next_of blocks) (block blocks t).want_send ps
  pub ending : (block blocks t).want_send_end ≡ last_of ps
  pub inside : All (λ p. p < length blocks) ps
  pub distinct : Distinct ps

pub All-map : (P Q : ℕ → Type 0) (ps : List ℕ) → ((p : ℕ) → P p → Q p) → All P ps → All Q ps
All-map P Q [] f h = tt
All-map P Q (p ∷ ps) f (k, h) = (f p k, All-map P Q ps f h)

pub last-All : (P : ℕ → Type 0) (ps : List ℕ) (l : ℕ) → All P ps → last_of ps ≡ some l → P l
last-All P [] l h e = ground arith
last-All P (p ∷ []) l (h, _) e = let same : p ≡ l = ground arith in subst P same h
last-All P (p ∷ q ∷ ps) l (h, hs) e = last-All P (q ∷ ps) l hs e

pub IsChain-same :
    (next next' : ℕ → Option ℕ) (start start' : Option ℕ) (ps : List ℕ)
    → ((p : ℕ) → next' p ≡ next p)
    → start' ≡ start
    → IsChain next start ps
    → IsChain next' start' ps
IsChain-same next next' start start' [] h e c = e ∙ c
IsChain-same next next' start start' (p ∷ ps) h e (s, c) =
    (e ∙ s, IsChain-same next next' (next p) (next' p) ps h (h p) c)

pub IsChain-keep :
    (next next' : ℕ → Option ℕ) (start : Option ℕ) (ps : List ℕ)
    → All (λ p. next' p ≡ next p) ps
    → IsChain next start ps
    → IsChain next' start ps
IsChain-keep next next' start [] h c = c
IsChain-keep next next' start (p ∷ ps) (same, h) (s, c) =
    (s, rw same (IsChain-keep next next' (next p) ps h c))

-- linking the last task to one more
pub IsChain-snoc :
    (next next' : ℕ → Option ℕ) (start : Option ℕ) (ps : List ℕ) (l cur : ℕ)
    → IsChain next start ps
    → last_of ps ≡ some l
    → Distinct ps
    → All (λ p. p ≢ l → next' p ≡ next p) ps
    → next' l ≡ some cur
    → next' cur ≡ none
    → IsChain next' start (ps ++ cur ∷ [])
IsChain-snoc next next' start [] l cur c e d same link end = ground arith
IsChain-snoc next next' start (p ∷ []) l cur (s, c) e d same link end =
    let k : p ≡ l = ground arith in (s, (rw k link, end))
IsChain-snoc next next' start (p ∷ q ∷ ps) l cur (s, c) e (other, d) (same, h) link end =
    let ne : p ≢ l = λ k. last-All (λ k. k ≢ p) (q ∷ ps) l other e (sym k) in
    (s, rw (same ne) (IsChain-snoc next next' (next p) (q ∷ ps) l cur c e d h link end))

pub last_of-snoc : (ps : List ℕ) (cur : ℕ) → last_of (ps ++ cur ∷ []) ≡ some cur
last_of-snoc [] cur = refl
last_of-snoc (p ∷ []) cur = refl
last_of-snoc (p ∷ q ∷ ps) cur = last_of-snoc (q ∷ ps) cur

module _ (blocks : List Tcb) (p : ℕ) (f : Tcb → Tcb) (lt : p < length blocks) where
  pub modify_self : block (modify blocks p f) p ≡ f (block blocks p)
  modify_self = get_or-set_self no_tcb blocks p (f (block blocks p)) lt

  pub modify_ne : (q : ℕ) → q ≢ p → block (modify blocks p f) q ≡ block blocks q
  modify_ne q ne =
      let other : (p == q) ≡ false = ground arith in
      get_or-set no_tcb blocks p q (f (block blocks p)) lt ∙ rw other refl

  -- a field that `f` leaves
  pub modify_field :
      {A : Type 0} (g : Tcb → A) (q : ℕ)
      → ((t : Tcb) → g (f t) ≡ g t)
      → g (block (modify blocks p f) q) ≡ g (block blocks q)
  modify_field g q same = elim (Bool-cases (p == q)) [
    | inl hit ↦
        let e : p ≡ q = ground arith in
        rw (get_or-set no_tcb blocks p q (f (block blocks p)) lt, hit)
          (same (block blocks p) ∙ ap (λ k. g (block blocks k)) e)
    | inr miss ↦ rw (get_or-set no_tcb blocks p q (f (block blocks p)) lt, miss) refl
  ]
