-- ===== src/Interactor/Pushing.antt =====
-- PushChanges of prow/pkg/githubinteractor/github.go: commit what changed, push it to the bot's fork and
-- open a pull request unless there is one.
pub mod Outcomes
use ci_infra_gardener.Prelude.{
  ℕ, ◌≡◌, refl, inl, inr, Bool, true, false, Option, none, some, List, [], ◌∷◌, ◌++◌, arith, Text,
  codes, if◌then◌else◌, Exec, Trace, Result, ok, err, pure, observe, perform, wrap, ◌>>=◌, ◌>>◌,
  Option-cases, Result-cases, ◌⊎◌,
}
use ci_infra_gardener.Github.{PullRequest}
use ci_infra_gardener.Interactor.{
  Remote, Call, configured, checked_out, checked_out_new, committed, pushed, opened_pull_request,
  labelled, cleaned, PushError, configure_user, configure_email, plain, Repository, get_email,
  ensure_fork_exists, find_pull_request,
}

abbrev pub opened_call :
    Option ℕ → Repository → (title target_branch upstream_branch : Text) → List Call → List Call
opened_call (some _) r title target_branch upstream_branch calls = calls
opened_call none r title target_branch upstream_branch calls =
    opened_pull_request r.org r.repo title (r.gh.bot_user.login ++ (codes ":" ++ target_branch))
      upstream_branch
    ∷ calls

abbrev pub labelled_call : Option (List Text) → ℕ → List Call → List Call
labelled_call none number calls = calls
labelled_call (some labels) number calls = labelled number labels ∷ calls

-- The calls of a successful publication, the latest first.
abbrev pub published :
    Repository
    → (fork : Repository) (upstream_branch target_branch commit_message pr_title : Text)
    → Option (List Text)
    → Option ℕ
    → ℕ
    → List Call
    → List Call
published r fork upstream_branch target_branch commit_message pr_title labels found number calls =
    labelled_call labels number (
      opened_call found r pr_title target_branch upstream_branch
        (pushed fork.repo target_branch ∷ committed commit_message ∷ calls))

module _ {W E : Type 0} (remote : Remote W E) where
  abbrev Action : Type 0 → Type 0
  Action A = Exec (Trace W Call) E A

  unfoldable pub switch_branch : Text → Action (Unit {0})
  switch_branch branch s =
      if remote.branch_exists branch s.world
      then perform (checked_out branch) (remote.checkout branch) s
      else perform (checked_out_new branch) (remote.checkout_new_branch branch) s

  -- The number of the pull request that was found, or of a new one.
  unfoldable pub ensure_pull_request :
      Repository → (title target_branch upstream_branch : Text) → Option ℕ → Action ℕ
  ensure_pull_request r title target_branch upstream_branch (some number) = pure number
  ensure_pull_request r title target_branch upstream_branch none =
      let head = r.gh.bot_user.login ++ (codes ":" ++ target_branch) in
      perform (opened_pull_request r.org r.repo title head upstream_branch)
        (remote.create_pull_request r.org r.repo title [] head upstream_branch)

  -- `labels` is `none` for the nil slice.
  unfoldable pub ensure_labels : Repository → ℕ → Option (List Text) → Action (Unit {0})
  ensure_labels r number none = pure tt
  ensure_labels r number (some labels) =
      perform (labelled number labels) (remote.add_labels r.org r.repo number labels)

  -- The defer of PushChanges: the clone is removed however the function returns.
  unfoldable pub deferring_clean : {A : Type 0} → Action A → Action A
  deferring_clean m s = let (r, s') = m s in (r, (perform cleaned remote.clean s').1)

  -- From the commit on.
  unfoldable pub publish :
      Repository
      → (fork : Repository)
        (upstream_repo upstream_branch target_branch commit_message pr_title : Text)
      → Option (List Text)
      → Action (Unit {0})
  unfolding ensure_pull_request ensure_labels
  publish r fork upstream_repo upstream_branch target_branch commit_message pr_title labels = do
    perform (committed commit_message)
        (remote.commit r.gh.bot_user.name (get_email r.gh) commit_message)
    prs ← observe (remote.get_pull_requests r.org r.repo)
    let found =
        find_pull_request fork.full_repo_name target_branch upstream_repo upstream_branch prs
    perform (pushed fork.repo target_branch)
        (remote.push_to_named_fork fork.repo target_branch true)
    number ← ensure_pull_request r pr_title target_branch upstream_branch found
    ensure_labels r number labels

  -- Up to the commit: the author, the fork and the branch.
  unfoldable pub prepare : Repository → Text → Exec (Trace W Call) (PushError E) Repository
  unfolding switch_branch
  prepare r target_branch = do
    let name = r.gh.bot_user.name
    let email = get_email r.gh
    wrap configure_user
        (perform (configured (codes "user.name") name) (remote.config (codes "user.name") name))
    wrap configure_email
        (perform (configured (codes "user.email") email) (remote.config (codes "user.email") email))
    fork ← wrap plain (ensure_fork_exists remote r)
    wrap plain (switch_branch target_branch)
    pure fork

  unfoldable pub push_changes :
      Repository
      → (upstream_repo upstream_branch target_branch commit_message pr_title : Text)
      → Option (List Text)
      → Exec (Trace W Call) (PushError E) (Unit {0})
  push_changes r upstream_repo upstream_branch target_branch commit_message pr_title labels = do
    fork ← prepare r target_branch
    wrap plain (
        deferring_clean (
          publish r fork upstream_repo upstream_branch target_branch commit_message pr_title
            labels))

  -- The world once the change was committed, the pull requests were listed, and the branch was pushed to the
  -- fork.
  abbrev pub published_world :
      Repository → (fork : Repository) (target_branch commit_message : Text) → W → W
  published_world r fork target_branch commit_message w =
      let c = remote.commit r.gh.bot_user.name (get_email r.gh) commit_message w in
      (remote.push_to_named_fork fork.repo target_branch true
        (remote.get_pull_requests r.org r.repo c.1).1).1

  -- A successful publication: the pull requests that were listed after the commit, and the number of the
  -- one that is now open, which is a new one if none of them was from the branch.
  pub record IsPublished (r fork : Repository)
      (upstream_repo upstream_branch target_branch commit_message pr_title : Text)
      (labels : Option (List Text)) (s s' : Trace W Call) : Type 0 where
    pub prs : List PullRequest
    pub number : ℕ
    pub committed_it :
        (remote.commit r.gh.bot_user.name (get_email r.gh) commit_message s.world).0 ≡ ok tt
    pub pushed_it :
        (remote.push_to_named_fork fork.repo target_branch true
          (remote.get_pull_requests r.org r.repo
            (remote.commit r.gh.bot_user.name (get_email r.gh) commit_message s.world).1).1).0
        ≡ ok tt
    pub listed :
        (remote.get_pull_requests r.org r.repo
          (remote.commit r.gh.bot_user.name (get_email r.gh) commit_message s.world).1).0
        ≡ ok prs
    pub chosen :
        ((find_pull_request fork.full_repo_name target_branch upstream_repo upstream_branch prs
            ≡ none)
          × ((remote.create_pull_request r.org r.repo pr_title []
                (r.gh.bot_user.login ++ (codes ":" ++ target_branch))
                upstream_branch
                (published_world r fork target_branch commit_message s.world)).0
              ≡ ok number))
        ⊎ (find_pull_request fork.full_repo_name target_branch upstream_repo upstream_branch prs
            ≡ some number)
    pub traced :
        s'.calls
        ≡ published r fork upstream_branch target_branch commit_message pr_title labels
            (find_pull_request fork.full_repo_name target_branch upstream_repo upstream_branch prs)
            number
            s.calls

  pub publish_lem :
      (r fork : Repository)
      (upstream_repo upstream_branch target_branch commit_message pr_title : Text)
      (labels : Option (List Text)) (s s' : Trace W Call)
      → publish r fork upstream_repo upstream_branch target_branch commit_message pr_title labels s
        ≡ (ok tt, s')
      → IsPublished r fork upstream_repo upstream_branch target_branch commit_message pr_title
          labels s s'
  unfolding publish
  publish_lem r fork upstream_repo upstream_branch target_branch commit_message pr_title labels s s'
        h =
      let c = remote.commit r.gh.bot_user.name (get_email r.gh) commit_message s.world in
      let g = remote.get_pull_requests r.org r.repo c.1 in
      elim (Result-cases g.0) [
        | inr (e, bad) ↦ ground (arith, bad)
        | inl (prs, listed) ↦
            elim (Option-cases (
              find_pull_request fork.full_repo_name target_branch upstream_repo upstream_branch
                prs)) [
                  | inl missing ↦
                      let target = r.gh.bot_user.login ++ (codes ":" ++ target_branch) in
                      let p = remote.push_to_named_fork fork.repo target_branch true g.1 in
                      let o =
                        remote.create_pull_request r.org r.repo pr_title [] target upstream_branch
                          p.1 in
                      elim (Result-cases o.0) [
                        | inr (e, bad) ↦ ground (arith, listed, missing, bad)
                        | inl (number, made) ↦ record {
                          prs = prs;
                          number = number;
                          committed_it = ground (arith, listed, missing, made);
                          pushed_it = ground (arith, listed, missing, made);
                          listed = listed;
                          chosen = inl (missing, made);
                          traced = ground (arith, listed, missing, made);
                        }
                      ]
                  | inr (k, found) ↦ record {
                    prs = prs;
                    number = k;
                    committed_it = ground (arith, listed, found);
                    pushed_it = ground (arith, listed, found);
                    listed = listed;
                    chosen = inr found;
                    traced = ground (arith, listed, found);
                  }
                ]
      ]
