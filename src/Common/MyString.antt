-- ===== src/Common/MyString.antt =====
-- src/common/my_string.c. A string that is read is the list of its bytes before the terminating 0; a
-- buffer that is written is the list of its bytes. `char` is unsigned on the ARM target. The counter
-- `n` is a `size_t`, so the tests `n >= 0` of the source always hold and are left out.
mod Tests
pub mod Laws
use the_polling_express.Base.{
  ℕ, suc, ◌+◌, Option, none, some, List, [], ◌∷◌, ltb, ◌==◌, if◌then◌else◌,
}
use the_polling_express.Base.Int.{ℤ, pos, negsuc}
use mathlib.Core.Option

unfoldable pub strlen : List ℕ → ℕ
strlen [] = 0
strlen (c ∷ str) = suc (strlen str)

-- The result is the buffer after the call, or `none` for a write behind its end.
unfoldable pub strncpy : List ℕ → List ℕ → ℕ → Option (List ℕ)
strncpy [] src n = none
strncpy (d ∷ dest) [] n = some (0 ∷ dest)
strncpy (d ∷ dest) (c ∷ src) n = Option.map (◌∷◌ c) (strncpy dest src n)

-- `n` is compared with 0 behind the loop, and never counted down.
unfoldable pub strncmp : List ℕ → List ℕ → ℕ → ℤ
strncmp [] [] n = pos 0
strncmp (a ∷ s1) [] n = if n == 0 then pos 0 else pos 1
strncmp [] (b ∷ s2) n = if n == 0 then pos 0 else negsuc 0
strncmp (a ∷ s1) (b ∷ s2) n =
    if ltb b a then pos 1 else if ltb a b then negsuc 0 else strncmp s1 s2 n
