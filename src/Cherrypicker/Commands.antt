-- ===== src/Cherrypicker/Commands.antt =====
-- The commands in a comment: cherryPickRe, `(?m)^(?:/cherrypick|/cherry-pick)\s+(.+)$`, and parseComment of
-- prow/external-plugins/cherrypicker/server.go. White space is that of ASCII.
pub mod Reading
use ci_infra_gardener.Prelude.{
  ℕ, zero, suc, ◌+◌, ◌-◌, Bool, true, false, not, ◌||◌, Option, none, some, List, [], ◌∷◌, ◌++◌,
  Text, codes, cut_prefix, eqb, length, keep, if◌then◌else◌,
}
use ci_infra_gardener.Prelude.Sets.{put}

-- `\s` of the pattern, and the white space of strings.Fields, which has the vertical tab too.
abbrev pub is_blank : ℕ → Bool
is_blank c = eqb c 32 || eqb c 10 || eqb c 9 || eqb c 12 || eqb c 13

abbrev pub is_space : ℕ → Bool
is_space c = is_blank c || eqb c 11

-- The longest start of a text whose bytes pass the test, and the rest.
unfoldable pub span : (ℕ → Bool) → Text → Text × Text
span p [] = ([], [])
span p (c ∷ s) = let (a, b) = span p s in if p c then (c ∷ a, b) else ([], c ∷ s)

-- The last byte that is not a line feed, with its position.
unfoldable pub last_in_line : Text → Option (ℕ × ℕ)
last_in_line [] = none
last_in_line (c ∷ s) = elim (last_in_line s) [
  | some (d, i) ↦ some (d, suc i)
  | none ↦ if eqb c 10 then none else some (c, 0)
]

-- The group, and the length of the match, behind a byte of white space, from the rest of the white space and
-- what follows it. Where nothing follows, the match ends with the last byte of the white space that is not a
-- line feed.
unfoldable pub match_group : (more others : Text) → Option (Text × ℕ)
unfolding span last_in_line
match_group more [] = elim (last_in_line more) [ none ↦ none | some (c, i) ↦ some (c ∷ [], i + 2) ]
match_group more (d ∷ others) =
    let group = (span (λ c. not (eqb c 10)) (d ∷ others)).0 in
    some (group, suc (length more) + length group)

-- Behind the white space at the start.
abbrev pub match_behind : Text × Text → Option (Text × ℕ)
match_behind ([], others) = none
match_behind (_ ∷ more, others) = match_group more others

-- `\s+(.+)$`
unfoldable pub match_argument : Text → Option (Text × ℕ)
unfolding span match_group
match_argument s = match_behind (span is_blank s)

unfoldable pub match_command : Text → Option (Text × ℕ)
unfolding match_argument
match_command s = elim (cut_prefix (codes "/cherrypick") s) [
  | some rest ↦ elim (match_argument rest) [ none ↦ none | some (group, n) ↦ some (group, 11 + n) ]
  | none ↦ elim (cut_prefix (codes "/cherry-pick") s) [
    | some rest ↦ elim (match_argument rest) [
      | none ↦ none
      | some (group, n) ↦ some (group, 12 + n)
    ]
    | none ↦ none
  ]
]

-- What a match here, if any, adds to the matches behind so many bytes.
abbrev pub add_match : Option (Text × ℕ) → (ℕ → List Text) → List Text
add_match none behind = behind 0
add_match (some (group, n)) behind = group ∷ behind (n - 1)

-- FindAllStringSubmatch: the groups of the matches from left to right. `skip` bytes belong to the last match;
-- `start` says whether a line starts here.
unfoldable pub find_commands : (start : Bool) → (skip : ℕ) → Text → List Text
unfolding match_command
find_commands start skip [] = []
find_commands start (suc skip) (c ∷ s) = find_commands (eqb c 10) skip s
find_commands start zero (c ∷ s) =
    add_match (if start then match_command (c ∷ s) else none)
      λ skip. find_commands (eqb c 10) skip s

-- The words of a text, with the white space between them: the first one may be empty, as may the others.
unfoldable pub split_spaces : Text → Text × List Text
split_spaces [] = ([], [])
split_spaces (c ∷ s) =
    let (word, words) = split_spaces s in
    if is_space c then ([], word ∷ words) else (c ∷ word, words)

abbrev pub is_word : Text → Bool
is_word [] = false
is_word (c ∷ s) = true

-- strings.Fields
unfoldable pub fields : Text → List Text
unfolding split_spaces
fields s = let (word, words) = split_spaces s in keep is_word (word ∷ words)

-- A target branch with the branches of its chain.
abbrev pub Commands : Type 0
Commands = List (Text × List Text)

-- The loop over the matches; `none` is the panic of `targetBranches[0]`.
unfoldable pub add_commands : List Text → Commands → Option Commands
unfolding fields
add_commands [] commands = some commands
add_commands (group ∷ groups) commands = elim (fields group) [
  | [] ↦ none
  | branch ∷ chain ↦ add_commands groups (put branch chain commands)
]

unfoldable pub parse_comment : Text → Option Commands
unfolding find_commands add_commands
parse_comment body = add_commands (find_commands true 0 body) []
