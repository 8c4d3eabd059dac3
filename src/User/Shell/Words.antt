-- ===== src/User/Shell/Words.antt =====
-- src/user/shell.c: the tokens of a line that holds words with a space between two of them.
use mathlib.Core.List.{append_assoc}
use the_polling_express.Base.{
  ℕ, zero, suc, ◌+◌, ◌≤◌, ◌<◌, ◌≡◌, ◌≢◌, refl, sym, ap, true, false, ◌||◌, not, List, [], ◌∷◌, ◌++◌,
  arith, length, drop, get_or, ltb, ◌==◌, All, length-append, Bool-cases, inl, inr,
}
use the_polling_express.Base.Outcome.{Outcome, ok, out_of_bounds, EndsIn}
use the_polling_express.User.Shell.{tokenizer_loop, tokenizer, text, token, max_command_tokens}

-- a byte of a word
abbrev pub IsInner : ℕ → Type 0
IsInner c = (c ≢ 0) × (c ≢ 32)

abbrev pub IsWord : List ℕ → Type 0
IsWord w = All IsInner w

-- What stands behind a word: the other words, each behind a byte `apart`, and a NUL with what follows it.
abbrev pub behind : ℕ → List (List ℕ) → List ℕ → List ℕ
behind apart [] rest = 0 ∷ rest
behind apart (w ∷ ws) rest = apart ∷ (w ++ behind apart ws rest)

-- the starts of the words behind the place `p`
abbrev starts_of : ℕ → List (List ℕ) → List ℕ
starts_of p [] = []
starts_of p (w ∷ ws) = (p + 1) ∷ starts_of (p + 1 + length w) ws

abbrev Tokenized : Outcome (List ℕ × List ℕ) → List ℕ → List ℕ → Type 0
Tokenized r starts input = r ≡ ok (starts, input)

tokenizer-inner :
    (c : ℕ) (input input' starts : List ℕ) (p i : ℕ)
    → IsInner c
    → i < max_command_tokens
    → tokenizer_loop input (p + 1) i ≡ ok (starts, input')
    → tokenizer_loop (c ∷ input) p i ≡ ok (starts, c ∷ input')
unfolding tokenizer_loop
tokenizer-inner c input input' starts p i (nul, space) few e =
    let goes_on : (c == 0 || not (ltb i max_command_tokens)) ≡ false = ground arith in
    let inner : (c == 32) ≡ false = ground arith in rw (goes_on, inner, e) refl

tokenizer-space :
    (input input' starts : List ℕ) (p i : ℕ)
    → i + 1 < max_command_tokens
    → tokenizer_loop input (p + 1) (i + 1) ≡ ok (starts, input')
    → tokenizer_loop (32 ∷ input) p i ≡ ok ((p + 1) ∷ starts, 0 ∷ input')
unfolding tokenizer_loop
tokenizer-space input input' starts p i few e =
    let goes_on : not (ltb i max_command_tokens) ≡ false = ground arith in
    let room : ltb (i + 1) max_command_tokens ≡ true = ground arith in rw (goes_on, room, e) refl

tokenizer-words :
    (w : List ℕ) (ws : List (List ℕ)) (rest : List ℕ) (p i : ℕ)
    → IsWord w
    → All IsWord ws
    → i + length ws < max_command_tokens
    → tokenizer_loop (w ++ behind 32 ws rest) p i
      ≡ ok (starts_of (p + length w) ws, w ++ behind 0 ws rest)
unfolding tokenizer_loop
tokenizer-words [] [] rest p i hw hws few = refl
tokenizer-words [] (w ∷ ws) rest p i hw (h, hws) few =
    let here : p + 0 ≡ p = omega arith in
    rw here (
      tokenizer-space (w ++ behind 32 ws rest) (w ++ behind 0 ws rest)
        (starts_of (p + 1 + length w) ws) p i (omega arith)
        (tokenizer-words w ws rest (p + 1) (i + 1) h hws (omega arith)))
tokenizer-words (c ∷ w) ws rest p i (inner, hw) hws few =
    let next : p + length (c ∷ w) ≡ p + 1 + length w = omega arith in
    rw next (
      tokenizer-inner c (w ++ behind 32 ws rest) (w ++ behind 0 ws rest)
        (starts_of (p + 1 + length w) ws) p i inner (omega arith)
        (tokenizer-words w ws rest (p + 1) i hw hws few))

text-word : (w tail : List ℕ) → IsWord w → text (w ++ 0 ∷ tail) ≡ w
unfolding text
text-word [] tail h = refl
text-word (c ∷ w) tail (inner, h) =
    let real : (c == 0) ≡ false = ground (arith, inner.0) in
    rw real (ap (◌∷◌ c) (text-word w tail h))

text-behind :
    (w : List ℕ) (ws : List (List ℕ)) (rest : List ℕ) → IsWord w → text (w ++ behind 0 ws rest) ≡ w
text-behind w [] rest h = text-word w rest h
text-behind w (v ∷ ws) rest h = text-word w (v ++ behind 0 ws rest) h

drop-append : (pre tail : List ℕ) (p : ℕ) → length pre ≡ p → drop p (pre ++ tail) ≡ tail
drop-append [] tail zero e = refl
drop-append [] tail (suc p) e = absurd (omega arith)
drop-append (c ∷ pre) tail zero e = absurd (omega arith)
drop-append (c ∷ pre) tail (suc p) e = drop-append pre tail p (omega arith)

token-behind :
    (pre : List ℕ) (ws : List (List ℕ)) (rest : List ℕ) (p k : ℕ)
    → length pre ≡ p
    → All IsWord ws
    → token (starts_of p ws) (pre ++ behind 0 ws rest) k ≡ get_or ws k []
unfolding token
token-behind pre [] rest p k e hws = refl
token-behind pre (w ∷ ws) rest p zero e (h, hws) =
    let split : pre ++ 0 ∷ (w ++ behind 0 ws rest) ≡ (pre ++ 0 ∷ []) ++ (w ++ behind 0 ws rest) =
      sym (append_assoc pre (0 ∷ []) (w ++ behind 0 ws rest)) in
    let size : length (pre ++ 0 ∷ []) ≡ p + 1 = omega (arith, length-append pre (0 ∷ [])) in
    rw (split, drop-append (pre ++ 0 ∷ []) (w ++ behind 0 ws rest) (p + 1) size)
      (text-behind w ws rest h)
token-behind pre (w ∷ ws) rest p (suc k) e (h, hws) =
    let split : pre ++ 0 ∷ (w ++ behind 0 ws rest) ≡ (pre ++ 0 ∷ w) ++ behind 0 ws rest =
      sym (append_assoc pre (0 ∷ w) (behind 0 ws rest)) in
    rw split (
      token-behind (pre ++ 0 ∷ w) ws rest (p + 1 + length w) k
        (omega (arith, length-append pre (0 ∷ w))) hws)

-- the words that the tokens of a line show
abbrev pub Shows : List (List ℕ) → List ℕ × List ℕ → Type 0
Shows ws (starts, input) = (k : ℕ) → token starts input k ≡ get_or ws k []

first-token :
    (w : List ℕ) (ws : List (List ℕ)) (rest : List ℕ)
    → IsWord w
    → All IsWord ws
    → Shows (w ∷ ws) (0 ∷ starts_of (0 + length w) ws, w ++ behind 0 ws rest)
unfolding token
first-token w ws rest h hws zero = text-behind w ws rest h
first-token w ws rest h hws (suc k) = token-behind w ws rest (0 + length w) k (omega arith) hws

-- For at most six words with one space between two of them, the tokens are the words, in order, and the
-- tokens behind them are empty.
pub tokenizer-words_lem :
    (w : List ℕ) (ws : List (List ℕ)) (rest : List ℕ)
    → IsWord w
    → All IsWord ws
    → length ws < max_command_tokens
    → EndsIn (Shows (w ∷ ws)) (tokenizer (w ++ behind 32 ws rest))
unfolding tokenizer
tokenizer-words_lem w ws rest h hws few =
    rw (tokenizer-words w ws rest 0 0 h hws (omega arith)) (first-token w ws rest h hws)

tokenizer-past :
    (w : List ℕ) (ws : List (List ℕ)) (rest : List ℕ) (p i : ℕ)
    → IsWord w
    → All IsWord ws
    → i < max_command_tokens
    → max_command_tokens ≤ i + length ws
    → tokenizer_loop (w ++ behind 32 ws rest) p i ≡ out_of_bounds
unfolding tokenizer_loop
tokenizer-past [] [] rest p i hw hws few many = absurd (omega arith)
tokenizer-past [] (w ∷ ws) rest p i hw (h, hws) few many =
    let goes_on : not (ltb i max_command_tokens) ≡ false = ground arith in
    elim (Bool-cases (ltb (i + 1) max_command_tokens)) [
      | inl room ↦
          rw
            (
              goes_on,
              room,
              tokenizer-past w ws rest (p + 1) (i + 1) h hws (ground arith) (omega arith),
            )
            refl
      | inr over ↦ rw (goes_on, over) refl
    ]
tokenizer-past (c ∷ w) ws rest p i (inner, hw) hws few many =
    let goes_on : (c == 0 || not (ltb i max_command_tokens)) ≡ false = ground (arith, inner) in
    let inside : (c == 32) ≡ false = ground (arith, inner) in
    rw (goes_on, inside, tokenizer-past w ws rest (p + 1) i hw hws few many) refl

-- For seven words or more with one space between two of them, `tokenizer` writes behind its tokens.
tokenizer-seventh :
    (w : List ℕ) (ws : List (List ℕ)) (rest : List ℕ)
    → IsWord w
    → All IsWord ws
    → max_command_tokens ≤ length ws
    → tokenizer (w ++ behind 32 ws rest) ≡ out_of_bounds
unfolding tokenizer
tokenizer-seventh w ws rest h hws many =
    rw (tokenizer-past w ws rest 0 0 h hws (omega arith) (omega arith)) refl
