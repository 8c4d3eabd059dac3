-- ===== src/Common/Hashtable/Tests.antt =====
-- A run of the table of src/common/hashtable.c: the keys "ab" and "bA" have the same hash.
use the_polling_express.Base.{ℕ, ◌%◌, ◌≡◌, refl, List, [], ◌∷◌}
use the_polling_express.Common.Hashtable.{hash_loop}
use the_polling_express.Common.Hashtable.Lookup.{latest}

abbrev ab : List ℕ
ab = 97 ∷ 98 ∷ []

abbrev entered : List (List ℕ × ℕ)
entered = (98 ∷ 65 ∷ [], 9) ∷ (ab, 5) ∷ []

collision : latest 10 (hash_loop 5381 ab % 10) entered ≡ 9
unfolding hash_loop
collision = refl
