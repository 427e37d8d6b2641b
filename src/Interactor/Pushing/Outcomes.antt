-- ===== src/Interactor/Pushing/Outcomes.antt =====
-- How PushChanges ends: what a success has done, and what is left out once a step fails.
use ci_infra_gardener.Prelude.{
  ◌≡◌, Bool, true, false, ◌++◌, Option, List, ◌∷◌, arith, Text, codes, if◌then◌else◌, Trace, ok,
  err,
}
use ci_infra_gardener.Interactor.{
  Remote, Call, configured, fork_ensured, checked_out, checked_out_new, committed, cleaned,
  Repository, get_email, new_repository,
}
use ci_infra_gardener.Interactor.Pushing.{deferring_clean, publish, IsPublished}

-- The calls before the commit, the latest first.
abbrev pub prepared : Repository → Bool → Text → List Call → List Call
prepared r exists branch calls =
    (if exists then checked_out branch else checked_out_new branch)
    ∷ fork_ensured r.gh.bot_user.login r.org r.repo
    ∷ configured (codes "user.email") (get_email r.gh)
    ∷ configured (codes "user.name") r.gh.bot_user.name
    ∷ calls

module _ {W E : Type 0} (remote : Remote W E) where
  -- The world once the author was configured, once the fork was ensured, and once the branch was switched to,
  -- which is made if it does not exist.
  abbrev pub configured_world : Repository → W → W
  configured_world r w =
      (remote.config (codes "user.email") (get_email r.gh)
        (remote.config (codes "user.name") r.gh.bot_user.name w).1).1

  abbrev pub forked_world : Repository → W → W
  forked_world r w = (remote.ensure_fork r.gh.bot_user.login r.org r.repo (configured_world r w)).1

  abbrev pub switched_world : (exists : Bool) → Text → W → W
  switched_world true branch w = (remote.checkout branch w).1
  switched_world false branch w = (remote.checkout_new_branch branch w).1

  -- The fork is the repository of the bot with the name that EnsureFork returned.
  pub record IsFork (r fork : Repository) (w : W) : Type 0 where
    pub name : Text
    pub ensured :
        (remote.ensure_fork r.gh.bot_user.login r.org r.repo (configured_world r w)).0 ≡ ok name
    pub made : new_repository remote (r.gh.bot_user.login ++ (codes "/" ++ name)) r.gh ≡ ok fork

  abbrev pub found_branch : Repository → Text → W → Bool
  found_branch r branch w = remote.branch_exists branch (forked_world r w)

  -- A success went through all steps: the clone was removed at the end, before it the change was
  -- published from the fork, and before that the author was configured and the branch checked out.
  pub record IsPushed (r : Repository)
      (upstream_repo upstream_branch target_branch commit_message pr_title : Text)
      (labels : Option (List Text)) (s s' : Trace W Call) : Type 0 where
    pub fork : Repository
    pub before : Trace W Call
    pub after : Trace W Call
    pub forked : IsFork r fork s.world
    pub calls_before :
        before.calls ≡ prepared r (found_branch r target_branch s.world) target_branch s.calls
    pub world_before :
        before.world
        ≡ switched_world
            (found_branch r target_branch s.world)
            target_branch
            (forked_world r s.world)
    pub publication :
        IsPublished remote r fork upstream_repo upstream_branch target_branch commit_message
          pr_title labels before after
    pub cleaning : s'.calls ≡ cleaned ∷ after.calls

  module _ (r : Repository)
      (upstream_repo upstream_branch target_branch commit_message pr_title : Text)
      (labels : Option (List Text)) where
    -- If the commit fails, its error is returned: nothing is pushed, no pull request is opened or
    -- labelled, and the clone is removed all the same.
    pub failed_commit_publishes_nothing :
        (fork : Repository) (s : Trace W Call) (e : E)
        → (remote.commit r.gh.bot_user.name (get_email r.gh) commit_message s.world).0 ≡ err e
        → let (result, s') =
            deferring_clean remote
              (publish remote r fork upstream_repo upstream_branch target_branch commit_message
                pr_title labels)
              s in
          (result ≡ err e) × (s'.calls ≡ cleaned ∷ committed commit_message ∷ s.calls)
    unfolding deferring_clean publish
    failed_commit_publishes_nothing fork s e bad = (ground (arith, bad), ground (arith, bad))
