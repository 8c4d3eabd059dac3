-- ===== src/User/Shell/Parse.antt =====
-- src/user/shell.c: what `shell` makes of the tokens of a line, and what a command does. `names` are
-- the names of the track's nodes, from src/user/track_data.c.
use the_polling_express.Base.{
  ℕ, zero, suc, ◌+◌, Bool, true, false, ◌||◌, Option, none, some, List, [], ◌∷◌, ltb, ◌==◌,
  if◌then◌else◌, replicate,
}
use the_polling_express.Base.Int.{ℤ, pos, negsuc}
use the_polling_express.Base.Outcome.{Outcome, ok, finished, ◌>>=◌}
use the_polling_express.Common.CircularBuffer.{CircularBuffer, cb_push_back, cb_pop_front}
use the_polling_express.Common.MyString.{strlen, strncmp}
use the_polling_express.User.Virtual.{p_v_train_num}
use the_polling_express.User.Shell.{Line, atoi, token, handle_new_char, terminal_max_input_size}

pub data Command : Type 0 where
  tr : ℕ → ℕ → Command
  sw : ℕ → ℕ → Command
  rv : ℕ → Command
  quit die : Command
  gt : ℕ → ℕ → ℤ → Command
  reg : ℕ → ℕ → Command
  mock : ℤ → Command
  random : ℕ → ℕ → Command

-- How the line's command ends: `refused` is `continue` behind a message.
pub data Parsed : Type 0 where
  plan doneplan refused invalid : Parsed
  planned : Command → Parsed

-- `strncmp(a, b, n) == 0`
unfoldable pub is_same : List ℕ → List ℕ → ℕ → Bool
unfolding strncmp
is_same a b n = elim (strncmp a b n) [ pos d ↦ d == 0 | negsuc d ↦ false ]

-- the loop of `track_name_to_num`, from node `i` on
unfoldable pub find_name : List (List ℕ) → List ℕ → ℕ → ℤ
unfolding is_same strlen
find_name [] name i = negsuc 0
find_name (node ∷ names) name i =
    let rest = find_name names name (i + 1) in
    if is_same name node (strlen name) then pos i else rest

unfoldable pub track_name_to_num : List (List ℕ) → List ℕ → ℤ
unfolding find_name
track_name_to_num names name = find_name names name 0

-- a command for a train, if the number is not negative
abbrev for_train : ℤ → (ℕ → Parsed) → Parsed
for_train (pos v) next = next v
for_train (negsuc n) next = refused

-- a number that is not negative and at most `most`
abbrev in_range : ℕ → ℕ → ℤ → (ℕ → Parsed) → Parsed
in_range least most (negsuc n) next = refused
in_range least most (pos n) next = if ltb n least || ltb most n then refused else next n

abbrev pub train_of : List ℕ → ℤ
train_of t = p_v_train_num (atoi t)

-- the first byte of a text, which is the NUL of an empty one
abbrev first_byte : List ℕ → ℕ
first_byte [] = 0
first_byte (c ∷ t) = c

abbrev pub num_switches : ℕ
num_switches = 256

module _ (names : List (List ℕ)) where
  -- `command_tokens[1]` to `command_tokens[3]` are `t1` to `t3`.
  unfoldable pub parse : List ℕ → List ℕ → List ℕ → List ℕ → Parsed
  unfolding is_same strlen p_v_train_num atoi track_name_to_num
  parse t0 t1 t2 t3 =
      let is = λ (word : List ℕ). is_same t0 word (strlen word) in
      if is (112 ∷ 108 ∷ 97 ∷ 110 ∷ [])
      then plan
      else if is (100 ∷ 111 ∷ 110 ∷ 101 ∷ 112 ∷ 108 ∷ 97 ∷ 110 ∷ [])
      then doneplan
      else if is (116 ∷ 114 ∷ [])
      then in_range 0 14 (atoi t2) (λ speed. for_train (train_of t1) (λ v. planned (tr v speed)))
      else if is (115 ∷ 119 ∷ [])
      then in_range 1 num_switches (atoi t1) (λ n.
        if first_byte t2 == 99 || first_byte t2 == 115
        then planned (sw n (first_byte t2))
        else refused)
      else if is (114 ∷ 118 ∷ [])
      then for_train (train_of t1) (λ v. planned (rv v))
      else if is (113 ∷ [])
      then planned quit
      else if is (103 ∷ 116 ∷ [])
      then for_train (train_of t1)
          (λ v. for_train (track_name_to_num names t2) (λ dest. planned (gt v dest (atoi t3))))
      else if is (100 ∷ 105 ∷ 101 ∷ [])
      then planned die
      else if is (114 ∷ 101 ∷ 103 ∷ [])
      then for_train (train_of t1)
          (λ v. for_train (track_name_to_num names t2) (λ source. planned (reg v source)))
      else if is (109 ∷ 111 ∷ 99 ∷ 107 ∷ [])
      then planned (mock (track_name_to_num names t1))
      else if is (114 ∷ 97 ∷ 110 ∷ 100 ∷ 111 ∷ 109 ∷ [])
      then in_range 1 3 (atoi t1) (λ kind. for_train (train_of t2) (λ v. planned (random v kind)))
      else invalid

pub record Shell : Type 0 where
  pub line : Line
  pub command_cb : CircularBuffer Command
  pub is_planning_mode : Bool

-- the `while (command_cb.count > 0)` that takes the commands out
unfoldable pub flush_loop :
    ℕ → CircularBuffer Command → Option (List Command × CircularBuffer Command)
unfolding cb_pop_front
flush_loop zero cb = none
flush_loop (suc fuel) cb =
    let (status, item, popped) = cb_pop_front cb in
    let rest = flush_loop fuel popped in
    if cb.count == 0 then some ([], cb) else (elim rest [
      | none ↦ none
      | some (commands, last) ↦ elim item [
        | none ↦ some (commands, last)
        | some command ↦ some (command ∷ commands, last)
      ]
    ])

-- behind the commands: the queue run, unless one plans, and the input cleared
unfoldable pub run_queue : Shell → Outcome (Shell × List Command)
unfolding flush_loop
run_queue s =
    let cleared = record s.line { input = replicate terminal_max_input_size 0 } in
    if s.is_planning_mode
    then ok (record s { line = cleared }, [])
    else (finished (flush_loop (s.command_cb.count + 1) s.command_cb) >>= λ r.
        ok (record s { line = cleared; command_cb = r.1 }, r.0))

unfoldable pub run_parsed : Shell → Parsed → Outcome (Shell × List Command)
unfolding run_queue cb_push_back
run_parsed s plan = ok (record s { is_planning_mode = true }, [])
run_parsed s doneplan =
    let out = run_queue (record s { is_planning_mode = false }) in
    if s.is_planning_mode then out else ok (s, [])
run_parsed s refused = ok (s, [])
run_parsed s invalid = run_queue s
run_parsed s (planned command) =
    run_queue (record s { command_cb = (cb_push_back s.command_cb command false).1 })

-- one character from `Getc`: the shell after it, and the commands that it runs
unfoldable pub shell_char : List (List ℕ) → Shell → ℕ → Outcome (Shell × List Command)
unfolding handle_new_char parse run_parsed token
shell_char names s c = handle_new_char c s.line >>= λ r.
    let s' = record s { line = r.0 } in
    elim (r.1) [
      | none ↦ ok (s', [])
      | some starts ↦
          let at = token starts (r.0).input in
          run_parsed s' (parse names (at 0) (at 1) (at 2) (at 3))
    ]
