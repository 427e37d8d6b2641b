-- ===== src/BranchCleaner/Ordering.antt =====
-- The order of release branches in getMatchingBranches, and the regular expression semverMajorMinor, of
-- prow/cmd/branch-cleaner/branchcleaner.go.
pub mod Sorted
use ci_infra_gardener.Prelude.{
  ℕ, suc, ◌+◌, ◌-◌, ◌*◌, Bool, true, false, ◌&&◌, Option, none, some, List, [], ◌∷◌, ◌++◌, Text,
  codes, ◌==◌, text_lt, trim_prefix, split_byte, length, leb, ltb, eqb, if◌then◌else◌, any, not,
  is_some,
}

abbrev pub is_digit : ℕ → Bool
is_digit c = leb b'0' c && leb c b'9'

-- The longest run of digits in front, and what follows it.
unfoldable pub span_digits : Text → Text × Text
span_digits [] = ([], [])
span_digits (c ∷ s) =
    let (digits, rest) = span_digits s in if is_digit c then (c ∷ digits, rest) else ([], c ∷ s)

-- `0|[1-9]\d*` at the front
unfoldable pub match_number : Text → Option (Text × Text)
unfolding span_digits
match_number [] = none
match_number (c ∷ s) =
    if eqb c b'0'
    then some (c ∷ [], s)
    else if is_digit c
    then (let (digits, rest) = span_digits s in some (c ∷ digits, rest))
    else none

abbrev match_dot : Text → Option Text
match_dot [] = none
match_dot (c ∷ s) = if eqb c b'.' then some s else none

-- `v(0|[1-9]\d*)\.(0|[1-9]\d*)` at the front: the text that matches
unfoldable pub match_major_minor : Text → Option Text
unfolding match_number
match_major_minor [] = none
match_major_minor (c ∷ s) = if not (eqb c b'v') then none else elim (match_number s) [
  | none ↦ none
  | some (major, after) ↦ elim (match_dot after) [
    | none ↦ none
    | some tail ↦ elim (match_number tail) [
      | none ↦ none
      | some (minor, _) ↦ some (b'v' ∷ (major ++ (b'.' ∷ minor)))
    ]
  ]
]

-- semverMajorMinor.FindString: the leftmost match, empty if there is none.
unfoldable pub find_major_minor : Text → Text
unfolding match_major_minor
find_major_minor [] = []
find_major_minor (c ∷ s) = elim (match_major_minor (c ∷ s)) [
  | some m ↦ m
  | none ↦ find_major_minor s
]

abbrev pub int_limit : ℕ
int_limit = 9223372036854775808

abbrev pub uint_limit : ℕ
uint_limit = 18446744073709551616

-- The digits up to one that leaves the 64 bits, behind which the rest is not read.
unfoldable pub digits_value : ℕ → Text → Option ℕ
digits_value n [] = some n
digits_value n (c ∷ s) =
    let next = n * 10 + (c - b'0') in
    let rest = digits_value next s in
    if not (is_digit c) then none else if leb uint_limit next then some next else rest

abbrev pub clamp_above : ℕ → ℕ
clamp_above n = if ltb n int_limit then int_limit + n else int_limit + int_limit - 1

abbrev pub clamp_below : ℕ → ℕ
clamp_below n = int_limit - n

abbrev pub from_digits : (ℕ → ℕ) → Text → ℕ
from_digits clamp [] = int_limit
from_digits clamp (c ∷ s) = elim (digits_value 0 (c ∷ s)) [ none ↦ int_limit | some n ↦ clamp n ]

-- strconv.Atoi without its error, a 64-bit integer shifted by 2^63: 0 for what is no number, and the
-- nearest integer for what is out of range.
unfoldable pub atoi : Text → ℕ
unfolding digits_value
atoi [] = int_limit
atoi (c ∷ s) =
    if eqb c b'-'
    then from_digits clamp_below s
    else if eqb c b'+'
    then from_digits clamp_above s
    else from_digits clamp_above (c ∷ s)

abbrev pub release_prefix : Text
release_prefix = codes "release-v"

-- strings.Split(strings.TrimPrefix(name, "release-v"), "."): its first part, and its second as a
-- number; `none` where the index 1 is out of range.
unfoldable pub version_key : Text → Option (Text × ℕ)
version_key name =
    let (first, others) = split_byte b'.' (trim_prefix name release_prefix) in
    elim others [ [] ↦ none | second ∷ _ ↦ some (first, atoi second) ]

-- The comparison of two keys: the first parts as texts, the second as numbers, the larger first.
unfoldable pub key_less : Text × ℕ → Text × ℕ → Bool
key_less (a, m) (b, n) = if a == b then ltb n m else text_lt b a

-- The comparison of two names: `none` where an index is out of range, which panics.
abbrev pub compare_keys : Option (Text × ℕ) → Option (Text × ℕ) → Option Bool
compare_keys (some a) (some b) = some (key_less a b)
compare_keys _ _ = none

unfoldable pub branch_less : Text → Text → Option Bool
unfolding key_less
branch_less a b = compare_keys (version_key a) (version_key b)

-- The outcome of an insertion in front of the rest, by what the comparison with the first branch says.
abbrev pub inserted :
    (a b : Text) → List Text → Option Bool → Option (List Text) → Option (List Text)
inserted a b bs none rest = none
inserted a b bs (some true) none = none
inserted a b bs (some true) (some cs) = some (b ∷ cs)
inserted a b bs (some false) rest = some (a ∷ b ∷ bs)

-- A branch goes behind those that are less.
unfoldable pub insert_branch : Text → List Text → Option (List Text)
insert_branch a [] = some (a ∷ [])
insert_branch a (b ∷ bs) = let rest = insert_branch a bs in inserted a b bs (branch_less b a) rest

-- sort.Slice with the comparison, as an insertion sort; `none` is the panic of a comparison. The order of
-- names with equal keys, which sort.Slice leaves open, is that of insertion.
unfoldable pub sort_branches : List Text → Option (List Text)
unfolding insert_branch
sort_branches [] = some []
sort_branches (b ∷ bs) = elim (sort_branches bs) [ none ↦ none | some cs ↦ insert_branch b cs ]
