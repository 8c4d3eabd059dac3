-- ===== src/Base/Check.antt =====
-- Finite checks: a test on every index of a table, made by evaluation.
use the_polling_express.Base.{
  ℕ, zero, suc, ◌<◌, ◌≡◌, Bool, true, false, ◌&&◌, arith, Bool-cases, inl, inr, ◌==◌, if◌then◌else◌,
}

-- the test at `n - 1`, then at the indices below
unfoldable pub every : ℕ → (ℕ → Bool) → Bool
every zero test = true
every (suc n) test = if test n then every n test else false

pub every_sound : (test : ℕ → Bool) (n i : ℕ) → i < n → every n test ≡ true → test i ≡ true
unfolding every
every_sound test zero i below e = elim below [ ]
every_sound test (suc n) i below e = elim (Bool-cases (i == n)) [
  | inl last ↦ ground arith
  | inr earlier ↦ every_sound test n i (ground arith) (ground arith)
]

pub &&-left : (a b : Bool) → (a && b) ≡ true → a ≡ true
&&-left a b h = ground arith

pub &&-right : (a b : Bool) → (a && b) ≡ true → b ≡ true
&&-right a b h = ground arith
