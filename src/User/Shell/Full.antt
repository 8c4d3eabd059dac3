-- ===== src/User/Shell/Full.antt =====
-- src/user/shell.c: a full line, a seventh token, and a destination that is missing.
use the_polling_express.Base.{
  ℕ, suc, ◌+◌, ◌≡◌, ◌≢◌, refl, true, false, some, List, [], ◌∷◌, ◌++◌, arith, ◌==◌, get_elem?,
  Bool-cases, inl, inr, ap, Has, ◌⊎◌, sym, ◌∙◌,
}
use the_polling_express.Base.Int.{ℤ, pos, negsuc}
use the_polling_express.Base.Outcome.{Outcome, ok, ◌>>=◌}
use the_polling_express.Common.MyString.{strlen, strncmp}
use the_polling_express.Common.MyString.Laws.{strncmp_iff}
use the_polling_express.User.Shell.{atoi, terminal_max_input_size}
use the_polling_express.User.Shell.Parse.{
  Command, gt, parse, planned, train_of, Shell, shell_char, find_name, track_name_to_num, is_same,
}

-- the shell after some characters, and the commands that it has run
unfoldable pub shell_chars : List (List ℕ) → Shell → List ℕ → Outcome (Shell × List Command)
unfolding shell_char
shell_chars names s [] = ok (s, [])
shell_chars names s (c ∷ cs) =
    shell_char names s c >>= λ r. shell_chars names (r.0) cs >>= λ q. ok (q.0, r.1 ++ q.1)

-- a character other than backspace and enter
abbrev pub IsKey : ℕ → Type 0
IsKey c = (c ≢ 8) × (c ≢ 13)

-- The shell ends with a line of 20 characters, the last commands that it was told unchanged, and runs no
-- command.
abbrev pub Ignores : Shell → Outcome (Shell × List Command) → Type 0
Ignores s r =
    (s' : Shell) × (r ≡ ok (s', []))
    × (s'.line.input_length ≡ terminal_max_input_size)
    × (s'.command_cb ≡ s.command_cb)

zero_of : (r : ℤ) → (elim r [ pos d ↦ d == 0 | negsuc d ↦ false ]) ≡ true → r ≡ pos 0
zero_of (pos d) e = ground arith
zero_of (negsuc d) e = ground arith

is_same-eq : (a b : List ℕ) (n : ℕ) → n ≢ 0 → is_same a b n ≡ true → a ≡ b
unfolding is_same
is_same-eq a b n h e = (strncmp_iff a b n h).0 (zero_of (strncmp a b n) e)

is_same_self : (a : List ℕ) (n : ℕ) → n ≢ 0 → is_same a a n ≡ true
unfolding is_same
is_same_self a n h = rw ((strncmp_iff a a n h).1 refl, is_same) refl

differs : (node name : List ℕ) (n : ℕ) → n ≢ 0 → is_same name node n ≡ false → node ≡ name → ⊥
differs node name n h other here =
    let self = is_same_self name n h in
    let same : is_same name name n ≡ false = rw here at other in ground arith

-- what a search for a name from node `i` on ends with
abbrev pub FoundName : List (List ℕ) → List ℕ → ℕ → ℤ → Type 0
FoundName names name i r =
    ((j : ℕ) × (r ≡ pos (i + j)) × (get_elem? names j ≡ some name))
    ⊎ ((r ≡ negsuc 0) × (Has name names → ⊥))

find_name-FoundName :
    (names : List (List ℕ)) (name : List ℕ) (i : ℕ)
    → strlen name ≢ 0
    → FoundName names name i (find_name names name i)
unfolding find_name
find_name-FoundName [] name i real = inr (refl, λ h. h)
find_name-FoundName (node ∷ names) name i real =
    elim (Bool-cases (is_same name node (strlen name))) [
      | inl same ↦ rw same (
          inl
            (0, ap pos (omega arith), ap some (sym (is_same-eq name node (strlen name) real same))))
      | inr other ↦ rw other (elim (find_name-FoundName names name (i + 1) real) [
        | inl (j, e, at) ↦ inl (suc j, e ∙ ap pos (omega arith), at)
        | inr (none_found, absent) ↦ inr (
          none_found,
          λ h. elim h [
            | inl here ↦ differs node name (strlen name) real other here
            | inr there ↦ absent there
          ],
        )
      ])
    ]

-- For a name that is not empty, `track_name_to_num` gives a node of this name, or -1 if there is none.
pub track_name_to_num-FoundName :
    (names : List (List ℕ)) (name : List ℕ)
    → strlen name ≢ 0
    → FoundName names name 0 (track_name_to_num names name)
unfolding track_name_to_num
track_name_to_num-FoundName names name real = find_name-FoundName names name 0 real

-- An empty name is found at the first node.
track_name-empty :
    (node : List ℕ) (names : List (List ℕ)) → track_name_to_num (node ∷ names) [] ≡ pos 0
unfolding track_name_to_num find_name is_same strlen strncmp
track_name-empty [] names = refl
track_name-empty (c ∷ node) names = refl

-- `gt` with a supported train and nothing behind it is taken for a command to the first node of the
-- track.
pub parse-no_destination :
    (node : List ℕ) (names : List (List ℕ)) (t1 : List ℕ) (v : ℕ)
    → train_of t1 ≡ pos v
    → parse (node ∷ names) (103 ∷ 116 ∷ []) t1 [] [] ≡ planned (gt v 0 (pos 0))
unfolding parse is_same strncmp strlen
parse-no_destination node names t1 v known =
    rw (known, track_name-empty node names) (unfold atoi in refl)
