-- ===== src/PeribolosCheck/Repos.antt =====
-- validateRepos of prow/cmd/peribolos-checkconfig/main.go.
use ci_infra_gardener.Prelude.{
  ℕ, ◌+◌, Bool, true, false, ◌&&◌, Option, none, some, List, [], ◌∷◌, ◌++◌, Text, map, leb,
  if◌then◌else◌,
}
use ci_infra_gardener.Prelude.Sets.{lookup, put}
use ci_infra_gardener.OrgConfig.{RepoConfig}

pub data RepoError : Type 0 where
  duplicate_repo_names : List (Text × Text) → RepoError
  unarchives : List Text → RepoError

-- strings.ToLower, for ASCII.
unfoldable pub lower_byte : ℕ → ℕ
lower_byte c = if leb b'A' c && leb c b'Z' then c + 32 else c

unfoldable pub to_lower : Text → Text
to_lower s = map lower_byte s

abbrev pub Seen : Type 0
Seen = List (Text × Text)

-- The names of a repository that other repositories have, each beside the other's spelling.
unfoldable pub find_duplicates : Seen → List Text → List (Text × Text)
find_duplicates seen [] = []
find_duplicates seen (name ∷ names) =
    let rest = find_duplicates seen names in
    elim (lookup (to_lower name) seen) [ none ↦ rest | some seen_name ↦ (seen_name, name) ∷ rest ]

unfoldable pub add_seen : Seen → List Text → Seen
add_seen seen [] = seen
add_seen seen (name ∷ names) = add_seen (put (to_lower name) name seen) names

unfoldable pub duplicates_from : Seen → List (Text × RepoConfig) → List (Text × Text)
unfolding find_duplicates add_seen
duplicates_from seen [] = []
duplicates_from seen ((want_name, repo) ∷ repos) =
    let to_check = want_name ∷ repo.previously in
    find_duplicates seen to_check ++ duplicates_from (add_seen seen to_check) repos

-- Is archived: false set?
abbrev pub is_unarchive : Option Bool → Bool
is_unarchive (some false) = true
is_unarchive _ = false

unfoldable pub find_unarchives : List (Text × RepoConfig) → List Text
find_unarchives [] = []
find_unarchives ((want_name, repo) ∷ repos) =
    let rest = find_unarchives repos in
    if is_unarchive repo.archived then want_name ∷ rest else rest

abbrev pub report_if_any : {A : Type 0} → (List A → RepoError) → List A → List RepoError
report_if_any f [] = []
report_if_any f (x ∷ xs) = f (x ∷ xs) ∷ []

unfoldable pub validate_repos : List (Text × RepoConfig) → List RepoError
unfolding duplicates_from find_unarchives
validate_repos repos =
    report_if_any duplicate_repo_names (duplicates_from [] repos)
    ++ report_if_any unarchives (find_unarchives repos)
