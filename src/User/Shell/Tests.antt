-- ===== src/User/Shell/Tests.antt =====
-- src/user/shell.c at concrete inputs.
use the_polling_express.Base.{ℕ, ◌≡◌, refl, false, List, [], ◌∷◌, ◌++◌, arith, replicate}
use the_polling_express.Base.Int.{pos}
use the_polling_express.Base.Outcome.{ok, EndsIn, ◌>>=◌}
use the_polling_express.Common.CircularBuffer.{cb_init}
use the_polling_express.User.Virtual.{p_v_train_num}
use the_polling_express.User.Shell.{atoi, tokenizer}
use the_polling_express.User.Shell.Parse.{Command, quit, tr, Shell, train_of}
use the_polling_express.User.Shell.Words.{behind, Shows, IsWord, tokenizer-words_lem}
use the_polling_express.User.Shell.Full.{shell_chars}

-- `tr`, `24` and `7`
abbrev tr_word : List ℕ
tr_word = 116 ∷ 114 ∷ []

tr_word-IsWord : IsWord tr_word
tr_word-IsWord = ((omega arith, omega arith), ((omega arith, omega arith), tt))

abbrev one_letter : List ℕ
one_letter = 97 ∷ []

one_letter-IsWord : IsWord one_letter
one_letter-IsWord = ((omega arith, omega arith), tt)

tokenizer-words_example :
    EndsIn
      (Shows (tr_word ∷ one_letter ∷ []))
      (tokenizer (tr_word ++ behind 32 (one_letter ∷ []) (0 ∷ 55 ∷ [])))
tokenizer-words_example =
    tokenizer-words_lem tr_word (one_letter ∷ []) (0 ∷ 55 ∷ []) tr_word-IsWord
      (one_letter-IsWord, tt) (omega arith)

abbrev fresh : ℕ → Shell
fresh n = record {
  line = record { input = replicate 20 0; input_length = n };
  command_cb = cb_init quit 10;
  is_planning_mode = false;
}

-- `tr 24 7` and the enter key
runs :
    ◌>>=◌ {B = List Command}
      (shell_chars [] (fresh 0) (116 ∷ 114 ∷ 32 ∷ 50 ∷ 52 ∷ 32 ∷ 55 ∷ 13 ∷ []))
      (λ r. ok (r.1))
    ≡ ok (tr 1 7 ∷ [])
unfolding shell_chars cb_init
runs = refl

-- `tr 99 14`, which is refused, leaves its bytes in the line, so that `tr 1 5` is refused as well.
stale :
    ◌>>=◌ {B = List Command}
      (shell_chars []
        (fresh 0)
        (116 ∷ 114 ∷ 32 ∷ 57 ∷ 57 ∷ 32 ∷ 49 ∷ 52 ∷ 13 ∷ 116 ∷ 114 ∷ 32 ∷ 49 ∷ 32 ∷ 53 ∷ 13 ∷ []))
      (λ r. ok (r.1))
    ≡ ok []
unfolding shell_chars cb_init
stale = refl

abbrev nodes : List (List ℕ)
nodes = (65 ∷ 49 ∷ []) ∷ (65 ∷ 50 ∷ []) ∷ []

train_24 : train_of (50 ∷ 52 ∷ []) ≡ pos 1
unfolding p_v_train_num atoi
train_24 = refl

-- 4294967320 is 2^32 + 24
wraps : atoi (52 ∷ 50 ∷ 57 ∷ 52 ∷ 57 ∷ 54 ∷ 55 ∷ 51 ∷ 50 ∷ 48 ∷ []) ≡ pos 24
unfolding atoi
wraps = refl
