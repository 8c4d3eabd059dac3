-- ===== src/Common/Hashtable.antt =====
-- src/common/hashtable.c. A key is the list of its bytes before the 0; `char` is unsigned on the ARM
-- target, and `unsigned long` has 32 bits. A value is a `void *`, and 0 is NULL.
pub mod Lookup
mod Tests
use the_polling_express.Base.{
  ℕ, ◌+◌, ◌*◌, ◌%◌, Option, none, some, List, [], ◌∷◌, get_or, set, replicate, ◌==◌, if◌then◌else◌,
}

pub record Hashtable : Type 0 where
  pub arr : List ℕ
  pub capacity : ℕ

abbrev pub e_key_missing : ℕ
e_key_missing = 2

-- the loop of `hash_function`
unfoldable pub hash_loop : ℕ → List ℕ → ℕ
hash_loop hash [] = hash
hash_loop hash (c ∷ key) =
    hash_loop (((hash * 32 % 0x100000000 + hash) % 0x100000000 + c) % 0x100000000) key

unfoldable pub hash_function : Hashtable → List ℕ → ℕ
unfolding hash_loop
hash_function ht key = hash_loop 5381 key % ht.capacity

-- The array has `capacity` entries.
unfoldable pub ht_init : ℕ → Hashtable
ht_init capacity = record { arr = replicate capacity 0; capacity = capacity }

unfoldable pub ht_insert : Hashtable → List ℕ → ℕ → ℕ × Hashtable
unfolding hash_function
ht_insert ht key value = (0, record ht { arr = set ht.arr (hash_function ht key) value })

-- The option is what is written to `ret`.
unfoldable pub ht_get : Hashtable → List ℕ → ℕ × Option ℕ
unfolding hash_function
ht_get ht key =
    let value = get_or ht.arr (hash_function ht key) 0 in
    if value == 0 then (e_key_missing, none) else (0, some value)
