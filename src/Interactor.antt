-- ===== src/Interactor.antt =====
-- prow/pkg/githubinteractor/github.go: the repository object that the milestone activator and the job
-- forker share. GitHub and git are the interface `Remote` over a world `W` with errors `E`; a call that
-- changes something is recorded in the trace.
pub mod Pushing
pub mod Listing
pub mod Committing
pub mod Examples
use ci_infra_gardener.Prelude.{
  ℕ, Bool, true, false, ◌&&◌, Option, none, some, List, [], ◌∷◌, ◌++◌, Text, codes, ◌==◌, keep,
  if◌then◌else◌, Exec, Trace, Result, ok, err, pure, raise, observe, perform, wrap, ◌>>=◌, ◌>>◌,
}
use ci_infra_gardener.Github.{PullRequest, BotUser}

-- What the source calls of GithubClient, git.ClientFactory, git.RepoClient and config.SplitRepoName.
pub record Remote (W E : Type 0) : Type 0 where
  pub split_repo_name : Text → Result E (Text × Text)
  pub get_branches : (org repo : Text) (only_protected : Bool) → Exec W E (List Text)
  pub get_pull_requests : (org repo : Text) → Exec W E (List PullRequest)
  pub ensure_fork : (user org repo : Text) → Exec W E Text
  pub create_pull_request : (org repo title body head base : Text) → Exec W E ℕ
  pub add_labels : (org repo : Text) (number : ℕ) (labels : List Text) → Exec W E (Unit {0})
  pub client_for : (org repo : Text) → Exec W E (Unit {0})
  pub config : (key value : Text) → Exec W E (Unit {0})
  pub branch_exists : Text → W → Bool
  pub checkout : Text → Exec W E (Unit {0})
  pub checkout_new_branch : Text → Exec W E (Unit {0})
  pub commit : (name email message : Text) → Exec W E (Unit {0})
  pub push_to_named_fork : (fork branch : Text) (force : Bool) → Exec W E (Unit {0})
  pub clean : Exec W E (Unit {0})

pub data Call : Type 0 where
  configured : (key value : Text) → Call
  fork_ensured : (user org repo : Text) → Call
  checked_out checked_out_new : Text → Call
  committed : (message : Text) → Call
  pushed : (fork branch : Text) → Call
  opened_pull_request : (org repo title head base : Text) → Call
  labelled : (number : ℕ) (labels : List Text) → Call
  cleaned : Call

pub data PushError (E : Type 0) : Type 0 where
  configure_user configure_email plain : E → PushError E

pub record GithubServer : Type 0 where
  pub bot_user : BotUser
  pub email : Text

pub record Repository : Type 0 where
  pub full_repo_name : Text
  pub org : Text
  pub repo : Text
  pub gh : GithubServer

unfoldable pub get_email : GithubServer → Text
get_email g = if g.email == [] then g.bot_user.email else g.email

-- The open pull request from the fork's branch to the upstream branch, if there is one.
unfoldable pub find_pull_request :
    (fork target_branch upstream_repo upstream_branch : Text) → List PullRequest → Option ℕ
find_pull_request fork target_branch upstream_repo upstream_branch [] = none
find_pull_request fork target_branch upstream_repo upstream_branch (pr ∷ prs) =
    let rest = find_pull_request fork target_branch upstream_repo upstream_branch prs in
    if pr.head_repo.full_name == fork
      && pr.head_ref == target_branch
      && pr.base_repo.full_name == upstream_repo
      && pr.base_ref == upstream_branch
    then some pr.number
    else rest

module _ {W E : Type 0} (remote : Remote W E) where
  open remote use {split_repo_name, get_branches, get_pull_requests, client_for}

  unfoldable pub new_repository : Text → GithubServer → Result E Repository
  new_repository full_repo_name gh = elim (split_repo_name full_repo_name) [
    | err e ↦ err e
    | ok (org, repo) ↦
        ok (record { full_repo_name = full_repo_name; org = org; repo = repo; gh = gh })
  ]

  -- The compiled pattern is the parameter `matches`; MustCompile's panic is not modelled.
  unfoldable pub get_matching_branches : Repository → (matches : Text → Bool) → Exec W E (List Text)
  get_matching_branches r matches = do
    unprotected ← get_branches r.org r.repo false
    protected ← get_branches r.org r.repo true
    pure (keep matches (unprotected ++ protected))

  unfoldable pub ensure_fork_exists : Repository → Exec (Trace W Call) E Repository
  unfolding new_repository
  ensure_fork_exists r = do
    repo ←
        perform (fork_ensured r.gh.bot_user.login r.org r.repo)
          (remote.ensure_fork r.gh.bot_user.login r.org r.repo)
    λ s. (new_repository (r.gh.bot_user.login ++ (codes "/" ++ repo)) r.gh, s)
