-- ===== src/Cherrypicker/Commands/Reading.antt =====
-- What parseComment of prow/external-plugins/cherrypicker/server.go reads in one command.
use ci_infra_gardener.Prelude.{
  ℕ, zero, suc, ◌+◌, ◌≡◌, refl, ap, ◌∙◌, Bool, true, false, not, none, some, List, [], ◌∷◌, ◌++◌,
  arith, Text, codes, cut_prefix, eqb, any, length, replicate, length-replicate, keep, join, All,
}
use ci_infra_gardener.Prelude.Sets.{put}
use ci_infra_gardener.Cherrypicker.Commands.{
  is_blank, is_space, span, last_in_line, match_argument, match_behind, match_group, match_command,
  add_match, find_commands, split_spaces, is_word, fields, add_commands, parse_comment,
}

-- A text without white space.
abbrev pub IsName : Text → Type 0
IsName w = (is_word w ≡ true) × (any is_space w ≡ false)

split_name :
    (w s : Text)
    → any is_space w ≡ false
    → split_spaces (w ++ s) ≡ (w ++ (split_spaces s).0, (split_spaces s).1)
unfolding split_spaces any
split_name [] s h = refl
split_name (c ∷ w) s h = ground (arith, h, split_name w s)

append_nil : (w : Text) → w ++ [] ≡ w
append_nil [] = refl
append_nil (c ∷ w) = ap (λ r. c ∷ r) (append_nil w)

alone : (w : Text) → any is_space w ≡ false → split_spaces w ≡ (w, [])
unfolding split_spaces any
alone [] h = refl
alone (c ∷ w) h = ground (arith, h, alone w)

fields-join :
    (b : Text) (bs : List Text)
    → All IsName (b ∷ bs)
    → split_spaces (join (b ∷ bs) (codes " ")) ≡ (b, bs)
unfolding join split_spaces
fields-join b [] h = alone b h.0.1
fields-join b (b' ∷ bs) h =
    split_name b (32 ∷ join (b' ∷ bs) (codes " ")) h.0.1
    ∙ ap (λ rest. (b ++ [], rest.0 ∷ rest.1)) (fields-join b' bs h.1)
    ∙ ap (λ w. (w, b' ∷ bs)) (append_nil b)

keep-IsName : (bs : List Text) → All IsName bs → keep is_word bs ≡ bs
unfolding keep
keep-IsName [] h = refl
keep-IsName (b ∷ bs) h = rw h.0.0 (ap (λ r. b ∷ r) (keep-IsName bs h.1))

skip_all : (start : Bool) (s : Text) → find_commands start (length s) s ≡ []
unfolding find_commands
skip_all start [] = refl
skip_all start (c ∷ s) = skip_all (eqb c 10) s

span_all : (p : ℕ → Bool) (s : Text) → any (λ c. not (p c)) s ≡ false → span p s ≡ (s, [])
unfolding span any
span_all p [] h = refl
span_all p (c ∷ s) h = ground (arith, h, span_all p s)

last_blank : (n : ℕ) → last_in_line (replicate (suc n) 32) ≡ some (32, n)
unfolding last_in_line
last_blank zero = refl
last_blank (suc n) = rw (last_blank n) refl

blanks : (n : ℕ) → any (λ c. not (is_blank c)) (replicate n 32) ≡ false
unfolding any
blanks zero = refl
blanks (suc n) = blanks n

match_end :
    (more : Text) (c i : ℕ)
    → last_in_line more ≡ some (c, i)
    → match_group more [] ≡ some (c ∷ [], i + 2)
unfolding match_group
match_end more c i h = rw (match_group, h) refl

match_blanks : (n : ℕ) → match_argument (replicate (suc (suc n)) 32) ≡ some (32 ∷ [], n + 2)
unfolding match_argument
match_blanks n =
    ap match_behind (span_all is_blank (replicate (suc (suc n)) 32) (blanks (suc (suc n))))
    ∙ match_end (replicate (suc n) 32) 32 n (last_blank n)

-- A line whose first byte is not white space is the argument behind one blank.
match_line :
    (c : ℕ) (s : Text)
    → is_blank c ≡ false
    → any (λ d. not (not (eqb d 10))) (c ∷ s) ≡ false
    → match_argument (32 ∷ c ∷ s) ≡ some (c ∷ s, suc (length (c ∷ s)))
unfolding match_argument match_group span
match_line c s first line =
    ap match_behind {x = span is_blank (32 ∷ c ∷ s)} {y = (32 ∷ [], c ∷ s)} (rw first refl)
    ∙ ap (λ r. some (r.0, 1 + length r.0)) (span_all (λ d. not (eqb d 10)) (c ∷ s) line)
    ∙ ap (λ n. some (c ∷ s, n)) (omega arith)

-- A command is read by its argument.
command_of :
    (s group : Text) (n : ℕ)
    → match_argument s ≡ some (group, n)
    → match_command (codes "/cherrypick" ++ s) ≡ some (group, 11 + n)
unfolding match_command cut_prefix
command_of s group n h = rw (match_command, h) refl

-- A match of the whole text is the only one.
only_match :
    (c : ℕ) (s group : Text) (n : ℕ)
    → match_command (c ∷ s) ≡ some (group, suc n)
    → n ≡ length s
    → find_commands true 0 (c ∷ s) ≡ group ∷ []
unfolding find_commands
only_match c s group n h e =
    ap (λ m. add_match m λ skip. find_commands (eqb c 10) skip s) h
    ∙ ap (λ k. group ∷ find_commands (eqb c 10) k s) (omega (arith, e))
    ∙ ap (λ r. group ∷ r) (skip_all (eqb c 10) s)

one_command :
    (s group : Text) (n : ℕ)
    → match_argument s ≡ some (group, n)
    → n ≡ length s
    → find_commands true 0 (codes "/cherrypick" ++ s) ≡ group ∷ []
one_command s group n h e =
    only_match b'/' (codes "cherrypick" ++ s) group (10 + n)
      (command_of s group n h ∙ ap (λ k. some (group, k)) (omega arith)) (omega (arith, e))

-- A command that ends in two blanks or more, with nothing else behind it, panics the server.
pub parse_comment-blanks :
    (n : ℕ) → parse_comment (codes "/cherrypick" ++ replicate (suc (suc n)) 32) ≡ none
unfolding parse_comment keep
parse_comment-blanks n =
    rw
      (one_command (replicate (suc (suc n)) 32) (32 ∷ []) (n + 2) (match_blanks n)
        (omega (arith, length-replicate {A = ℕ} n 32)))
      refl

any-append :
    (p : ℕ → Bool) (xs ys : Text) → any p xs ≡ false → any p ys ≡ false → any p (xs ++ ys) ≡ false
unfolding any
any-append p [] ys h k = k
any-append p (x ∷ xs) ys h k = ground (arith, h, any-append p xs ys)

in_line : (w : Text) → any is_space w ≡ false → any (λ d. not (not (eqb d 10))) w ≡ false
unfolding any
in_line [] h = refl
in_line (c ∷ w) h = ground (arith, h, in_line w)

line-join :
    (b : Text) (bs : List Text)
    → All IsName (b ∷ bs)
    → any (λ d. not (not (eqb d 10))) (join (b ∷ bs) (codes " ")) ≡ false
unfolding join any
line-join b [] h = in_line b h.0.1
line-join b (b' ∷ bs) h =
    any-append _ b (32 ∷ join (b' ∷ bs) (codes " ")) (in_line b h.0.1) (line-join b' bs h.1)

join-cons :
    (c : ℕ) (w : Text) (bs : List Text)
    → join ((c ∷ w) ∷ bs) (codes " ") ≡ c ∷ join (w ∷ bs) (codes " ")
unfolding join
join-cons c w [] = refl
join-cons c w (b ∷ bs) = refl

first_blank : (c : ℕ) (w : Text) → any is_space (c ∷ w) ≡ false → is_blank c ≡ false
unfolding any
first_blank c w h = ground (arith, h)

fields_of :
    (g b : Text) (bs : List Text)
    → split_spaces g ≡ (b, bs)
    → keep is_word (b ∷ bs) ≡ b ∷ bs
    → fields g ≡ b ∷ bs
unfolding fields
fields_of g b bs words kept = ap (λ r. keep is_word (r.0 ∷ r.1)) words ∙ kept

add_one :
    (g b : Text) (bs : List Text)
    → fields g ≡ b ∷ bs
    → add_commands (g ∷ []) [] ≡ some ((b, bs) ∷ [])
unfolding put add_commands
add_one g b bs h = rw (add_commands, h) refl

-- The commands in a text of one command, by the words of its argument.
parse_words :
    (c : ℕ) (s b : Text) (bs : List Text)
    → is_blank c ≡ false
    → any (λ d. not (not (eqb d 10))) (c ∷ s) ≡ false
    → split_spaces (c ∷ s) ≡ (b, bs)
    → keep is_word (b ∷ bs) ≡ b ∷ bs
    → parse_comment (codes "/cherrypick " ++ (c ∷ s)) ≡ some ((b, bs) ∷ [])
unfolding parse_comment
parse_words c s b bs first line words kept =
    ap (λ groups. add_commands groups [])
      (one_command (32 ∷ c ∷ s) (c ∷ s) (suc (length (c ∷ s))) (match_line c s first line) refl)
    ∙ add_one (c ∷ s) b bs (fields_of (c ∷ s) b bs words kept)

-- A command with the names of branches, separated by blanks, is read as the first branch with the others as
-- its chain.
pub parse_comment-join :
    (branch : Text) (chain : List Text)
    → All IsName (branch ∷ chain)
    → parse_comment (codes "/cherrypick " ++ join (branch ∷ chain) (codes " "))
      ≡ some ((branch, chain) ∷ [])
parse_comment-join [] chain h = absurd (ground (arith, h.0.0))
parse_comment-join (c ∷ w) chain h = rw (join-cons c w chain) (
    parse_words c (join (w ∷ chain) (codes " ")) (c ∷ w) chain (first_blank c w h.0.1)
      (rw⁻¹ (join-cons c w chain) (line-join (c ∷ w) chain h))
      (rw⁻¹ (join-cons c w chain) (fields-join (c ∷ w) chain h)) (keep-IsName ((c ∷ w) ∷ chain) h))
