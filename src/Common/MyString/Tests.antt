-- ===== src/Common/MyString/Tests.antt =====
-- Runs of the routines of src/common/my_string.c.
use the_polling_express.Base.{ℕ, ◌≡◌, List, [], ◌∷◌, some, arith}
use the_polling_express.Common.MyString.{strlen, strncpy}
use the_polling_express.Common.MyString.Laws.{strncpy_lem}

abbrev ab : List ℕ
ab = 5 ∷ 6 ∷ []

strncpy_example : strncpy (9 ∷ 9 ∷ 9 ∷ 9 ∷ []) ab 2 ≡ some (5 ∷ 6 ∷ 0 ∷ 9 ∷ [])
unfolding strlen
strncpy_example = (strncpy_lem (9 ∷ 9 ∷ 9 ∷ 9 ∷ []) ab 2).0 (omega arith)
