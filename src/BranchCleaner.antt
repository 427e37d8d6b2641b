-- ===== src/BranchCleaner.antt =====
-- prow/cmd/branch-cleaner/branchcleaner.go: old release branches of a repository are deleted. GitHub,
-- the compiled branch pattern and semver are the interface `Remote` over a world `W` with errors `E`.
pub mod Ordering
pub mod Selecting
pub mod Deleting
pub mod Running
mod Examples
use ci_infra_gardener.Prelude.{
  ℕ, Bool, true, false, not, ◌&&◌, Option, none, some, List, [], ◌∷◌, ◌++◌, Text, codes, ◌==◌, any,
  keep, length, drop, leb, if◌then◌else◌, Exec, Trace, Result, ok, err, map_err, pure, observe,
  perform, wrap, attempt, ◌>>=◌, ◌>>◌,
}
use ci_infra_gardener.Github.{PullRequest, FullRepo, open_state}
use ci_infra_gardener.BranchCleaner.Ordering.{sort_branches, find_major_minor}

pub record Options : Type 0 where
  pub branch_pattern : Text
  pub keep_branches : ℕ
  pub ignore_open_prs : Bool
  pub release_branch_mode : Bool

pub record Remote (W E : Type 0) : Type 0 where
  pub split_repo_name : Text → Result E (Text × Text)
  pub compile : Text → Result E (Text → Bool)
  pub new_version : Text → Result E Text
  pub is_not_found : E → Bool
  pub get_repo : (owner name : Text) → Exec W E FullRepo
  pub get_branches : (org repo : Text) (only_protected : Bool) → Exec W E (List Text)
  pub has_branch_protection : (org repo branch : Text) → Exec W E Bool
  pub remove_branch_protection : (org repo branch : Text) → Exec W E (Unit {0})
  pub get_pull_requests : (org repo : Text) → Exec W E (List PullRequest)
  pub get_ref : (org repo ref : Text) → Exec W E Text
  pub delete_ref : (org repo ref : Text) → Exec W E (Unit {0})

-- The calls that change the repository.
pub data Call : Type 0 where
  protection_removed : (branch : Text) → Call
  deleted : (owner name ref : Text) → Call

pub data CleanError (E : Type 0) : Type 0 where
  plain compiling parsing_semver : E → CleanError E
  identifying_matching identifying_tags identifying_deletions removing_protection :
      CleanError E → CleanError E
  panicked : CleanError E

abbrev pub heads : Text → Text
heads branch = codes "heads/" ++ branch

-- An open pull request into the branch; one from the branch of a fork to its upstream repository.
unfoldable pub targets : Text → PullRequest → Bool
targets branch pr = pr.base_ref == branch && pr.state == open_state

unfoldable pub comes_from : FullRepo → Text → PullRequest → Bool
comes_from r branch pr =
    pr.head_repo.owner == r.repo.owner && pr.head_repo.name == r.repo.name && pr.head_ref == branch

module _ {W E : Type 0} (remote : Remote W E) (options : Options) where
  abbrev pub Action : Type 0 → Type 0
  Action A = Exec (Trace W Call) (CleanError E) A

  -- A read: its failure is returned as it is.
  abbrev pub reading : {A : Type 0} → Exec W E A → Action A
  reading m = wrap plain (observe m)

  unfoldable pub get_matching_branches : FullRepo → Action (List Text)
  get_matching_branches r = do
    matches ← λ s. (map_err compiling (remote.compile options.branch_pattern), s)
    unprotected ← reading (remote.get_branches r.repo.owner r.repo.name false)
    protected ← reading (remote.get_branches r.repo.owner r.repo.name true)
    λ s. (
      elim (sort_branches (keep matches (unprotected ++ protected))) [
        | none ↦ err panicked
        | some bs ↦ ok bs
      ],
      s,
    )

  -- What a branch's release tag answers: an error, a tag, or none.
  unfoldable pub has_release_tag : FullRepo → Text → Action Bool
  has_release_tag r branch = do
    version ← λ s. (map_err parsing_semver (remote.new_version (find_major_minor branch)), s)
    found ← attempt (observe (remote.get_ref r.repo.owner r.repo.name (codes "tags/v" ++ version)))
    λ s. (
      elim found [
        | ok ref ↦ ok true
        | err e ↦ if remote.is_not_found e then ok false else err (plain e)
      ],
      s,
    )

  unfoldable pub identify_branches_with_release_tags : FullRepo → List Text → Action (List Text)
  identify_branches_with_release_tags r [] = pure []
  identify_branches_with_release_tags r (branch ∷ branches) = do
    tagged ← has_release_tag r branch
    rest ← identify_branches_with_release_tags r branches
    pure (if tagged then branch ∷ rest else rest)

  -- The second half of checkBranchToDelete, for a fork without an open pull request of its own.
  unfoldable pub check_upstream : FullRepo → Text → Action Bool
  check_upstream r branch = do
    prs ← reading (remote.get_pull_requests r.parent.owner r.parent.name)
    pure (not (any (comes_from r branch) prs))

  unfoldable pub check_branch_to_delete : FullRepo → Text → Action Bool
  unfolding check_upstream
  check_branch_to_delete r branch = if options.ignore_open_prs then pure true else do
    prs ← reading (remote.get_pull_requests r.repo.owner r.repo.name)
    let open_prs = any (targets branch) prs
    if r.fork && not open_prs then check_upstream r branch else pure (not open_prs)

  unfoldable pub select_branches : FullRepo → List Text → Action (List Text)
  select_branches r [] = pure []
  select_branches r (branch ∷ branches) = do
    delete_branch ← check_branch_to_delete r branch
    rest ← select_branches r branches
    pure (if delete_branch then branch ∷ rest else rest)

  unfoldable pub identify_branches_to_delete : FullRepo → List Text → Action (List Text)
  identify_branches_to_delete r branches =
      if leb (length branches) options.keep_branches
      then pure []
      else select_branches r (drop options.keep_branches branches)

  unfoldable pub delete_branches : FullRepo → List Text → Action (Unit {0})
  delete_branches r [] = pure tt
  delete_branches r (branch ∷ branches) = do
    wrap plain (
        perform (deleted r.repo.owner r.repo.name (heads branch))
          (remote.delete_ref r.repo.owner r.repo.name (heads branch)))
    delete_branches r branches

  unfoldable pub remove_protection : FullRepo → Text → Bool → Action (Unit {0})
  remove_protection r branch false = pure tt
  remove_protection r branch true = wrap plain (
      perform (protection_removed branch)
        (remote.remove_branch_protection r.repo.owner r.repo.name branch))

  unfoldable pub remove_branch_protection : FullRepo → List Text → Action (Unit {0})
  remove_branch_protection r [] = pure tt
  remove_branch_protection r (branch ∷ branches) = do
    is_protected ← reading (remote.has_branch_protection r.repo.owner r.repo.name branch)
    remove_protection r branch is_protected
    remove_branch_protection r branches

  -- run from the deletion list on
  unfoldable pub delete_identified : FullRepo → List Text → Action (Unit {0})
  delete_identified r branches = do
    (if options.release_branch_mode
        then wrap removing_protection (remove_branch_protection r branches)
        else pure tt)
    delete_branches r branches

  unfoldable pub find_candidates : FullRepo → Action (List Text)
  find_candidates r = do
    matching ← wrap identifying_matching (get_matching_branches r)
    (if options.release_branch_mode
        then wrap identifying_tags (identify_branches_with_release_tags r matching)
        else pure matching)

  -- run once the repository is known
  unfoldable pub clean_repository : FullRepo → Action (Unit {0})
  clean_repository r = do
    candidates ← find_candidates r
    branches ← wrap identifying_deletions (identify_branches_to_delete r candidates)
    delete_identified r branches

  unfoldable pub run : (full_repo : Text) → Action (Unit {0})
  run full_repo = do
    names ← λ s. (map_err plain (remote.split_repo_name full_repo), s)
    r ← reading (remote.get_repo names.0 names.1)
    clean_repository r
