-- ===== src/User/Neutron.antt =====
-- src/user/neutron.c, `SquareRoot`. Its values are `uint32_t`, so sums and products are taken modulo
-- 2^32, and a shift to the right is a division. A loop runs on fuel, of which `root_fuel` is enough.
pub mod Root
pub mod Predict
mod Tests
use the_polling_express.Base.{
  ℕ, zero, suc, ◌+◌, ◌-◌, ◌*◌, ◌/◌, ◌%◌, Option, none, some, ltb, leb, ◌==◌, if◌then◌else◌,
}
use the_polling_express.Base.Outcome.{Outcome, ok, ◌>>=◌, finished}

abbrev pub u32_mod : ℕ
u32_mod = 0x100000000

-- the loop that finds the highest power of four that is not above the argument
unfoldable pub one_loop : ℕ → ℕ → ℕ → Option ℕ
one_loop zero op one = none
one_loop (suc fuel) op one =
    let rest = one_loop fuel op (one / 4) in if ltb op one then rest else some one

-- the loop that sets one bit of the root in each round
unfoldable pub root_loop : ℕ → ℕ → ℕ → ℕ → Option ℕ
root_loop zero op res one = none
root_loop (suc fuel) op res one =
    let set_bit =
      root_loop fuel (op - (res + one) % u32_mod) ((res + 2 * one % u32_mod) % u32_mod / 2)
        (one / 4) in
    let clear_bit = root_loop fuel op (res / 2) (one / 4) in
    if one == 0 then some res else if leb ((res + one) % u32_mod) op then set_bit else clear_bit

abbrev pub root_fuel : ℕ
root_fuel = 17

unfoldable pub square_root : ℕ → Outcome ℕ
unfolding one_loop root_loop
square_root a_n_input = do
  one ← finished (one_loop root_fuel a_n_input 0x40000000)
  finished (root_loop root_fuel a_n_input 0 one)
