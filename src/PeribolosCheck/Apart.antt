-- ===== src/PeribolosCheck/Apart.antt =====
-- Which repositories validateRepos of prow/cmd/peribolos-checkconfig/main.go lets pass.
use ci_infra_gardener.Prelude.{
  ◌≡◌, refl, ◌↔◌, inl, inr, Bool, true, false, not, ◌&&◌, ◌||◌, List, [], ◌∷◌, ◌++◌, arith, Text,
  contains, map, Option-cases, is_some, any,
}
use ci_infra_gardener.Prelude.Sets.{lookup, put, lookup-put, contains-cons, contains-nil}
use ci_infra_gardener.OrgConfig.{RepoConfig}
use ci_infra_gardener.PeribolosCheck.Walking.{is_nil, is_nil-append, nil_iff}
use ci_infra_gardener.PeribolosCheck.Repos.{
  report_if_any, duplicate_repo_names, unarchives, RepoError, Seen, to_lower, find_duplicates,
  add_seen, duplicates_from, is_unarchive, find_unarchives, validate_repos,
}

-- The lower-case names of a repository, those of before included, and of some repositories.
abbrev pub lower_names : Text × RepoConfig → List Text
lower_names (want_name, repo) = map to_lower (want_name ∷ repo.previously)

abbrev pub all_lower_names : List (Text × RepoConfig) → List Text
all_lower_names [] = []
all_lower_names (repo ∷ repos) = lower_names repo ++ all_lower_names repos

-- Does a text of the first list stand in the second?
abbrev pub meets : List Text → List Text → Bool
meets [] ys = false
meets (x ∷ xs) ys = contains ys x || meets xs ys

-- Do no two repositories share a name, in lower case?
abbrev pub apart : List (Text × RepoConfig) → Bool
apart [] = true
apart (repo ∷ repos) = not (meets (all_lower_names repos) (lower_names repo)) && apart repos

-- Do the names of the repositories miss those seen?
abbrev unseen : Seen → List Text → Bool
unseen seen [] = true
unseen seen (n ∷ ns) = not (is_some (lookup n seen)) && unseen seen ns

find_duplicates_nil :
    (seen : Seen) (names : List Text)
    → is_nil (find_duplicates seen names) ≡ unseen seen (map to_lower names)
unfolding find_duplicates
find_duplicates_nil seen [] = refl
find_duplicates_nil seen (n ∷ ns) = elim (Option-cases (lookup (to_lower n) seen)) [
  | inl new ↦ ground (arith, new, find_duplicates_nil seen ns)
  | inr (old, e) ↦ ground (arith, e)
]

lookup-add_seen :
    (seen : Seen) (names : List Text) (y : Text)
    → is_some (lookup y (add_seen seen names))
      ≡ (is_some (lookup y seen) || contains (map to_lower names) y)
unfolding add_seen
lookup-add_seen seen [] y = ground (arith, contains-nil y)
lookup-add_seen seen (n ∷ ns) y = ground (
  arith,
  contains-cons (to_lower n) (map to_lower ns) y,
  lookup-put (to_lower n) y n seen,
  lookup-add_seen (put (to_lower n) n seen) ns y,
)

unseen-append :
    (seen : Seen) (xs ys : List Text) → unseen seen (xs ++ ys) ≡ (unseen seen xs && unseen seen ys)
unseen-append seen [] ys = refl
unseen-append seen (x ∷ xs) ys = ground (arith, unseen-append seen xs ys)

unseen-add_seen :
    (seen : Seen) (names xs : List Text)
    → unseen (add_seen seen names) xs ≡ (unseen seen xs && not (meets xs (map to_lower names)))
unseen-add_seen seen names [] = ground arith
unseen-add_seen seen names (x ∷ xs) =
    ground (arith, lookup-add_seen seen names x, unseen-add_seen seen names xs)

duplicates_from_nil :
    (seen : Seen) (repos : List (Text × RepoConfig))
    → is_nil (duplicates_from seen repos) ≡ (unseen seen (all_lower_names repos) && apart repos)
unfolding duplicates_from
duplicates_from_nil seen [] = refl
duplicates_from_nil seen ((want_name, repo) ∷ repos) =
    let to_check = want_name ∷ repo.previously in
    ground (
      arith,
      is_nil-append (find_duplicates seen to_check)
          (duplicates_from (add_seen seen to_check) repos),
      find_duplicates_nil seen to_check,
      duplicates_from_nil (add_seen seen to_check) repos,
      unseen-add_seen seen to_check (all_lower_names repos),
      unseen-append seen (map to_lower to_check) (all_lower_names repos),
    )

unseen_empty : (ns : List Text) → unseen [] ns ≡ true
unfolding lookup
unseen_empty [] = refl
unseen_empty (n ∷ ns) = unseen_empty ns

unarchives_nil :
    (repos : List (Text × RepoConfig))
    → is_nil (find_unarchives repos) ≡ not (any (λ r. is_unarchive r.1.archived) repos)
unfolding find_unarchives any
unarchives_nil [] = refl
unarchives_nil ((n, repo) ∷ repos) = ground (arith, unarchives_nil repos)

is_nil-report :
    {A : Type 0} (f : List A → RepoError) (xs : List A) → is_nil (report_if_any f xs) ≡ is_nil xs
is_nil-report f [] = refl
is_nil-report f (x ∷ xs) = refl

-- The repositories pass exactly if no two of them share a name, present or previous, up to the case of
-- letters, and none is configured with archived: false.
pub validate_repos_iff :
    (repos : List (Text × RepoConfig))
    → (validate_repos repos ≡ [])
      ↔ ((apart repos ≡ true) × (any (λ r. is_unarchive r.1.archived) repos ≡ false))
unfolding validate_repos
validate_repos_iff repos =
    let dups = report_if_any duplicate_repo_names (duplicates_from [] repos) in
    let archived = report_if_any unarchives (find_unarchives repos) in
    let passes : is_nil (validate_repos repos)
        ≡ (apart repos && not (any (λ r. is_unarchive r.1.archived) repos)) =
      ground (
        arith,
        is_nil-append dups archived,
        is_nil-report duplicate_repo_names (duplicates_from [] repos),
        is_nil-report unarchives (find_unarchives repos),
        duplicates_from_nil [] repos,
        unseen_empty (all_lower_names repos),
        unarchives_nil repos,
      ) in
    (
      λ h. ground (arith, passes, (nil_iff (validate_repos repos)).0 h),
      λ h. (nil_iff (validate_repos repos)).1 (ground (arith, passes)),
    )
