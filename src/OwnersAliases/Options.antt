-- ===== src/OwnersAliases/Options.antt =====
-- prow/cmd/owners-aliases-bumper/options.go and peribolos.go: the texts of a pull request, and the
-- repositories that are left out.
use ci_infra_gardener.Prelude.{
  ◌≡◌, ◌≢◌, refl, ◌⊎◌, inl, inr, Bool, false, not, ◌&&◌, Option, none, some, List, [], ◌∷◌, arith,
  Text, codes, ◌==◌, ==_iff, split_byte, if◌then◌else◌, Result, ok, err, Option-cases, Result-cases,
  any,
}
use ci_infra_gardener.Prelude.Sets.{lookup, put, delete, lookup-put, lookup-delete}

pub data OptionError (E : Type 0) : Type 0 where
  mutually_exclusive : (name : Text) → OptionError E
  unreadable : (name : Text) → E → OptionError E

-- The texts given on the command line, inline and by file.
pub record PrOptions : Type 0 where
  pub pr_branch : Text
  pub pr_title : Text
  pub commit_title : Text
  pub commit_body : Text
  pub commit_body_file : Text
  pub pr_body : Text
  pub pr_body_file : Text

pub record PrConfig : Type 0 where
  pub branch : Text
  pub commit_title : Text
  pub commit_body : Text
  pub pr_title : Text
  pub pr_body : Text

module _ {E : Type 0} (read_file : Text → Result E Text) where
  unfoldable pub resolve_body :
      (name inline_text file default_text : Text) → Result (OptionError E) Text
  resolve_body name inline_text file default_text =
      if not (inline_text == []) && not (file == [])
      then err (mutually_exclusive name)
      else if not (file == [])
      then elim (read_file file) [ ok raw ↦ ok raw | err e ↦ err (unreadable name e) ]
      else if not (inline_text == [])
      then ok inline_text
      else ok default_text

  unfoldable pub build_pr_config :
      (default_commit_body default_pr_body : Text) → PrOptions → Result (OptionError E) PrConfig
  build_pr_config default_commit_body default_pr_body o =
      elim (resolve_body (codes "commit-body") o.commit_body o.commit_body_file
        default_commit_body) [
          | err e ↦ err e
          | ok commit_body ↦
              elim (resolve_body (codes "pr-body") o.pr_body o.pr_body_file default_pr_body) [
                | err e ↦ err e
                | ok pr_body ↦ ok (record {
                  branch = o.pr_branch;
                  commit_title = o.commit_title;
                  commit_body = commit_body;
                  pr_title = o.pr_title;
                  pr_body = pr_body;
                })
              ]
        ]

  -- A body that is resolved was not given twice; it is the content of its file, if one is named, else the
  -- inline text, if it is not empty, else the default.
  abbrev pub IsResolved : (inline_text file default_text body : Text) → Type 0
  IsResolved inline_text file default_text body =
      ((file ≢ []) × (inline_text ≡ []) × (read_file file ≡ ok body))
      ⊎ ((file ≡ []) × (body ≡ (if inline_text == [] then default_text else inline_text)))

  resolve_body_lem :
      (name inline_text file default_text body : Text)
      → resolve_body name inline_text file default_text ≡ ok body
      → IsResolved inline_text file default_text body
  unfolding resolve_body
  resolve_body_lem name inline_text file default_text body h =
      ground (arith, ==_iff inline_text [], ==_iff file [])

  -- A configuration is built only if both bodies are resolved: neither was given twice, and each is the
  -- content of its file, if one is named, else the inline text, if it is not empty, else the default.
  pub build_pr_config_lem :
      (default_commit_body default_pr_body : Text) (o : PrOptions) (c : PrConfig)
      → build_pr_config default_commit_body default_pr_body o ≡ ok c
      → IsResolved o.commit_body o.commit_body_file default_commit_body c.commit_body
        × IsResolved o.pr_body o.pr_body_file default_pr_body c.pr_body
  unfolding build_pr_config
  build_pr_config_lem default_commit_body default_pr_body o c h =
      let r1 =
        resolve_body (codes "commit-body") o.commit_body o.commit_body_file default_commit_body in
      let r2 = resolve_body (codes "pr-body") o.pr_body o.pr_body_file default_pr_body in
      elim (Result-cases r1) [
        | inr (e, bad) ↦ ground (arith, bad)
        | inl (b1, good1) ↦ elim (Result-cases r2) [
          | inr (e, bad) ↦ ground (arith, good1, bad)
          | inl (b2, good2) ↦ (
            resolve_body_lem (codes "commit-body") o.commit_body o.commit_body_file
                default_commit_body c.commit_body (ground (arith, good1, good2)),
            resolve_body_lem (codes "pr-body") o.pr_body o.pr_body_file default_pr_body c.pr_body
                (ground (arith, good1, good2)),
          )
        ]
      ]

-- The repositories of each organization; what is known of a repository is not read here.
abbrev pub Orgs : Type 0 → Type 0
Orgs R = List (Text × List (Text × R))

-- Is the text the organization, a slash and the repository?
abbrev pub names_repo : (excluded org repo : Text) → Bool
names_repo excluded org repo =
    let (first, others) = split_byte b'/' excluded in
    first == org && elim others [ [] ↦ false | second ∷ _ ↦ second == repo ]

module _ {R : Type 0} where
  unfoldable pub remove_repo : (org repo : Text) → Orgs R → Orgs R
  remove_repo org repo orgs = elim (lookup org orgs) [
    | none ↦ orgs
    | some repos ↦ put org (delete repo repos) orgs
  ]

  -- `none` is the fatal error for what is not written as organization and repository.
  unfoldable pub remove_excluded_repos : Orgs R → List Text → Option (Orgs R)
  remove_excluded_repos orgs [] = some orgs
  remove_excluded_repos orgs (excluded ∷ rest) =
      let (org, others) = split_byte b'/' excluded in
      elim others [
        | [] ↦ none
        | repo ∷ more ↦ elim more [
          | [] ↦ remove_excluded_repos (remove_repo org repo orgs) rest
          | _ ↦ none
        ]
      ]

  abbrev pub repo_of : Orgs R → (org repo : Text) → Option R
  repo_of orgs org repo = elim (lookup org orgs) [ none ↦ none | some repos ↦ lookup repo repos ]

  repo_of-remove_repo :
      (org repo : Text) (orgs : Orgs R) (o r : Text)
      → repo_of (remove_repo org repo orgs) o r
        ≡ (if org == o && repo == r then none else repo_of orgs o r)
  unfolding remove_repo
  repo_of-remove_repo org repo orgs o r = elim (Option-cases (lookup org orgs)) [
    | inl missing ↦ ground (arith, missing, ==_iff org o)
    | inr (repos, found) ↦ ground (
      arith,
      found,
      ==_iff org o,
      lookup-put org o (delete repo repos) orgs,
      lookup-delete repo r repos,
    )
  ]

  -- Exclusion removes exactly the repositories that are named.
  pub remove_excluded_repos_lem :
      (excluded : List Text) (orgs out : Orgs R) (org repo : Text)
      → remove_excluded_repos orgs excluded ≡ some out
      → repo_of out org repo
        ≡ (if any (λ e. names_repo e org repo) excluded then none else repo_of orgs org repo)
  unfolding remove_excluded_repos any
  remove_excluded_repos_lem [] orgs out org repo h = ground arith
  remove_excluded_repos_lem (e ∷ rest) orgs out org repo h =
      go (split_byte b'/' e).1 refl (λ r.
        remove_excluded_repos_lem rest (remove_repo (split_byte b'/' e).0 r orgs) out org repo)
    where
      go :
          (others : List Text)
          → (split_byte b'/' e).1 ≡ others
          → ((r : Text)
              → remove_excluded_repos (remove_repo (split_byte b'/' e).0 r orgs) rest ≡ some out
              → repo_of out org repo ≡ (
                  if any (λ e'. names_repo e' org repo) rest
                  then none
                  else repo_of (remove_repo (split_byte b'/' e).0 r orgs) org repo))
          → repo_of out org repo ≡ (
              if any (λ e'. names_repo e' org repo) (e ∷ rest) then none else repo_of orgs org repo)
      go [] k ih = ground (arith, k)
      go (r ∷ []) k ih =
          let later = ih r (ground (arith, k)) in
          ground (arith, k, later, repo_of-remove_repo (split_byte b'/' e).0 r orgs org repo)
      go (r ∷ _ ∷ _) k ih = ground (arith, k)
