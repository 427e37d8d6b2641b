-- ===== src/OwnersAliases/PullRequests.antt =====
-- findOrCreatePR of prow/cmd/owners-aliases-bumper/github.go: one open pull request of the bumper's branch
-- into the default branch remains, the others are closed.
use ci_infra_gardener.Prelude.{
  ℕ, ◌+◌, ◌≡◌, refl, ap, subst, ◌∙◌, inl, inr, not, ◌&&◌, List, [], ◌∷◌, arith, Text, ◌==◌, keep,
  length, Exec, Trace, Result, ok, pure, observe, perform, attempt, ◌>>=◌, ◌>>◌, Result-cases,
}
use ci_infra_gardener.Github.{PullRequest, open_state}
use ci_infra_gardener.OwnersAliases.Options.{PrConfig}

-- prClient; GetRepo is read for the default branch only.
pub record PrClient (W E : Type 0) : Type 0 where
  pub get_default_branch : (org repo : Text) → Exec W E Text
  pub get_pull_requests : (org repo : Text) → Exec W E (List PullRequest)
  pub create_pull_request : (org repo title body head base : Text) → Exec W E ℕ
  pub close_pull_request : (org repo : Text) (number : ℕ) → Exec W E (Unit {0})

pub data PrCall : Type 0 where
  created : (head base : Text) → PrCall
  closed : (number : ℕ) → PrCall

-- The open pull requests of the branch; those into the default branch, and the others.
unfoldable pub of_branch : (branch : Text) → List PullRequest → List PullRequest
of_branch branch = keep (λ pr. pr.head_ref == branch && pr.state == open_state)

unfoldable pub into_default : (default_branch : Text) → List PullRequest → List PullRequest
into_default default_branch = keep (λ pr. pr.base_ref == default_branch)

unfoldable pub into_others : (default_branch : Text) → List PullRequest → List PullRequest
into_others default_branch = keep (λ pr. not (pr.base_ref == default_branch))

module _ {W E : Type 0} (client : PrClient W E) (org_name repo_name : Text) (cfg : PrConfig) where
  -- A failure to close is logged, and the loop goes on.
  unfoldable pub close_all : List PullRequest → Exec (Trace W PrCall) E (Unit {0})
  close_all [] = pure tt
  close_all (pr ∷ prs) = do
    attempt {F = E}
        (perform (closed pr.number) (client.close_pull_request org_name repo_name pr.number))
    close_all prs

  unfoldable pub keep_first : (default_branch : Text) → List PullRequest → Exec (Trace W PrCall) E ℕ
  keep_first default_branch [] = perform (created cfg.branch default_branch) (
      client.create_pull_request org_name repo_name cfg.pr_title cfg.pr_body cfg.branch
        default_branch)
  keep_first default_branch (pr ∷ prs) = do close_all prs; pure pr.number

  unfoldable pub find_or_create_pr : Exec (Trace W PrCall) E ℕ
  find_or_create_pr = do
    default_branch ← observe (client.get_default_branch org_name repo_name)
    all_prs ← observe (client.get_pull_requests org_name repo_name)
    let prs = of_branch cfg.branch all_prs
    number ← keep_first default_branch (into_default default_branch prs)
    close_all (into_others default_branch prs)
    pure number

  -- The closings of pull requests, behind earlier calls; the latest first.
  abbrev pub closings : List PullRequest → List PrCall → List PrCall
  closings [] calls = calls
  closings (pr ∷ prs) calls = closings prs (closed pr.number ∷ calls)

  close_all_lem :
      (prs : List PullRequest) (s : Trace W PrCall)
      → ((close_all prs s).0 ≡ ok tt) × ((close_all prs s).1.calls ≡ closings prs s.calls)
  unfolding close_all
  close_all_lem [] s = (refl, refl)
  close_all_lem (pr ∷ prs) s =
      let c = client.close_pull_request org_name repo_name pr.number s.world in
      let s1 : Trace W PrCall = record { world = c.1; calls = closed pr.number ∷ s.calls } in
      close_all_lem prs s1

  -- The number that keep_first returns, and its calls.
  abbrev kept_calls : (default_branch : Text) → List PullRequest → List PrCall → List PrCall
  kept_calls default_branch [] calls = created cfg.branch default_branch ∷ calls
  kept_calls default_branch (pr ∷ prs) calls = closings prs calls

  -- The number is that of the pull request that is created, or of the first one.
  abbrev IsKept : (default_branch : Text) → W → List PullRequest → ℕ → Type 0
  IsKept default_branch w [] number =
      (client.create_pull_request org_name repo_name cfg.pr_title cfg.pr_body cfg.branch
        default_branch w).0
      ≡ ok number
  IsKept default_branch w (pr ∷ prs) number = number ≡ pr.number

  keep_first_lem :
      (default_branch : Text) (prs : List PullRequest) (s s' : Trace W PrCall) (number : ℕ)
      → keep_first default_branch prs s ≡ (ok number, s')
      → IsKept default_branch s.world prs number
        × (s'.calls ≡ kept_calls default_branch prs s.calls)
  unfolding keep_first
  keep_first_lem default_branch [] s s' number h = (ground arith, ground arith)
  keep_first_lem default_branch (pr ∷ prs) s s' number h =
      let (done, calls) = close_all_lem prs s in (ground (arith, done), ground (arith, done, calls))

  -- A success: of the open pull requests of the branch that were listed, the first one into the default
  -- branch is the result and is kept, and a close of exactly the others is tried; if there is none into the default
  -- branch, one is created first.
  pub record IsSettled (s s' : Trace W PrCall) (number : ℕ) : Type 0 where
    pub default_branch : Text
    pub based : (client.get_default_branch org_name repo_name s.world).0 ≡ ok default_branch
    pub all_prs : List PullRequest
    pub listed :
        (client.get_pull_requests org_name repo_name
          (client.get_default_branch org_name repo_name s.world).1).0
        ≡ ok all_prs
    pub kept :
        IsKept default_branch
          (client.get_pull_requests org_name repo_name
            (client.get_default_branch org_name repo_name s.world).1).1
          (into_default default_branch (of_branch cfg.branch all_prs))
          number
    pub calls :
        s'.calls
        ≡ closings (into_others default_branch (of_branch cfg.branch all_prs)) (
            kept_calls default_branch
              (into_default default_branch (of_branch cfg.branch all_prs))
              s.calls)

  -- On success the number is that of the first listed open pull request of the branch into the default branch
  -- of the repository, or, if there is none, of the one that is created from the branch into the default
  -- branch; a close was tried for every other listed open one of the branch.
  pub find_or_create_pr_lem :
      (s s' : Trace W PrCall) (number : ℕ)
      → find_or_create_pr s ≡ (ok number, s')
      → IsSettled s s' number
  unfolding find_or_create_pr
  find_or_create_pr_lem s s' number h =
      let d = client.get_default_branch org_name repo_name s.world in
      let g = client.get_pull_requests org_name repo_name d.1 in
      elim (Result-cases d.0) [
        | inr (e, bad) ↦ ground (arith, bad)
        | inl (default_branch, based) ↦ elim (Result-cases g.0) [
          | inr (e, bad) ↦ ground (arith, based, bad)
          | inl (all_prs, listed) ↦
              let prs = of_branch cfg.branch all_prs in
              let s1 : Trace W PrCall = record { world = g.1; calls = s.calls } in
              let k = keep_first default_branch (into_default default_branch prs) s1 in
              elim (Result-cases k.0) [
                | inr (e, bad) ↦ ground (arith, based, listed, bad)
                | inl (n, settled) ↦
                    let (done, closed_others) =
                      close_all_lem (into_others default_branch prs) k.1 in
                    let same : n ≡ number = ground (arith, based, listed, settled, done) in
                    let (kept, calls) =
                      keep_first_lem default_branch (into_default default_branch prs) s1 k.1 n
                        (ap (λ (r : Result E ℕ). (r, k.1)) settled) in
                    let last : s'.calls ≡ (close_all (into_others default_branch prs) k.1).1.calls =
                      ground (arith, based, listed, settled, done) in
                    record {
                      default_branch = default_branch;
                      based = based;
                      all_prs = all_prs;
                      listed = listed;
                      kept =
                          subst (IsKept default_branch g.1 (into_default default_branch prs)) same
                            kept;
                      calls =
                          last
                          ∙ closed_others
                          ∙ ap (closings (into_others default_branch prs)) calls;
                    }
              ]
        ]
      ]

-- No open pull request of the branch is forgotten, and none is in both lists.
pub default_or_others :
    (default_branch : Text) (prs : List PullRequest)
    → length (into_default default_branch prs) + length (into_others default_branch prs)
      ≡ length prs
unfolding into_default into_others keep
default_or_others default_branch [] = refl
default_or_others default_branch (pr ∷ prs) = ground (arith, default_or_others default_branch prs)
