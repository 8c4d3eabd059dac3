-- ===== src/User/Shell.antt =====
-- src/user/shell.c: how the shell reads a line. A byte is its number, and a NUL is 0. A token is the
-- place in the input at which it starts; the tokens that `tokenizer` does not set are the empty text. An
-- `int` wraps around, as the compiled code does, where C leaves the overflow open.
pub mod Parse
pub mod Words
pub mod Full
pub mod Decimal
pub mod Run
mod Tests
use the_polling_express.Base.{
  ℕ, zero, suc, ◌+◌, ◌-◌, Bool, true, false, ◌&&◌, ◌||◌, not, Option, none, some, List, [], ◌∷◌,
  ◌++◌, set, drop, ltb, ◌==◌, if◌then◌else◌,
}
use the_polling_express.Base.Int.{ℤ, pos, negsuc, to_int, ◌+ℤ◌, ◌-ℤ◌, ◌*ℤ◌}
use the_polling_express.Base.Outcome.{Outcome, ok, out_of_bounds, ◌>>=◌, ◌>>◌}

abbrev pub terminal_max_input_size : ℕ
terminal_max_input_size = 20

abbrev pub max_command_tokens : ℕ
max_command_tokens = 6

-- the loop of `atoi` behind the sign
unfoldable pub atoi_loop : List ℕ → ℤ → ℤ
unfolding ◌+ℤ◌ ◌-ℤ◌ ◌*ℤ◌ to_int
atoi_loop [] res = res
atoi_loop (c ∷ str) res = atoi_loop str (to_int (res *ℤ pos 10 +ℤ pos c -ℤ pos 48))

unfoldable pub atoi : List ℕ → ℤ
unfolding atoi_loop to_int
atoi [] = pos 0
atoi (c ∷ str) =
    if c == 45 then to_int (pos 0 -ℤ atoi_loop str (pos 0)) else atoi_loop (c ∷ str) (pos 0)

-- The loop of `tokenizer` from place `p` on, with the token `i` open: the starts of the tokens behind it,
-- and what the bytes become. A read behind the input, and a write of `tokens[6]`, is out of bounds.
unfoldable pub tokenizer_loop : List ℕ → ℕ → ℕ → Outcome (List ℕ × List ℕ)
tokenizer_loop [] p i = out_of_bounds
tokenizer_loop (c ∷ input) p i =
    let apart = tokenizer_loop input (p + 1) (i + 1) in
    let inside = tokenizer_loop input (p + 1) i in
    if c == 0 || not (ltb i max_command_tokens)
    then ok ([], c ∷ input)
    else if c == 32
    then (if ltb (i + 1) max_command_tokens
        then (apart >>= λ r. ok ((p + 1) ∷ r.0, 0 ∷ r.1))
        else out_of_bounds)
    else inside >>= λ r. ok (r.0, c ∷ r.1)

unfoldable pub tokenizer : List ℕ → Outcome (List ℕ × List ℕ)
unfolding tokenizer_loop
tokenizer input = tokenizer_loop input 0 0 >>= λ r. ok (0 ∷ r.0, r.1)

-- the text up to the next NUL, as a pointer into the input shows it
unfoldable pub text : List ℕ → List ℕ
text [] = []
text (c ∷ bytes) = if c == 0 then [] else c ∷ text bytes

unfoldable pub token : List ℕ → List ℕ → ℕ → List ℕ
unfolding text
token [] input k = []
token (p ∷ starts) input zero = text (drop p input)
token (p ∷ starts) input (suc k) = token starts input k

-- `input` and `input_length`
pub record Line : Type 0 where
  pub input : List ℕ
  pub input_length : ℕ

-- what `handle_new_char` leaves: the line, and the tokens if it was entered
unfoldable pub handle_new_char : ℕ → Line → Outcome (Line × Option (List ℕ))
unfolding tokenizer
handle_new_char c l =
    if l.input_length == terminal_max_input_size
    then ok (l, none)
    else if c == 8
    then ok (
        if ltb 0 l.input_length
        then (
          record { input = set l.input (l.input_length - 1) 0; input_length = l.input_length - 1 },
          none,
        )
        else (l, none))
    else if c == 13
    then (tokenizer l.input >>= λ r. ok (record { input = r.1; input_length = 0 }, some (r.0)))
    else ok
        (record { input = set l.input l.input_length c; input_length = l.input_length + 1 }, none)
