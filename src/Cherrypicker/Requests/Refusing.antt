-- ===== src/Cherrypicker/Requests/Refusing.antt =====
-- Which comments are only answered: handleIssueComment of
-- prow/external-plugins/cherrypicker/server.go.
use ci_infra_gardener.Prelude.{
  ◌≡◌, ◌≢◌, refl, inl, inr, ◌⊎◌, Bool, true, false, not, some, [], ◌∷◌, is_some, Result-cases, ok,
}
use ci_infra_gardener.Prelude.Sets.{lookup, delete, sort}
use ci_infra_gardener.Cherrypicker.Commands.{Commands}
use ci_infra_gardener.Cherrypicker.Picking.{
  Reply, on_base_branch, not_trusted, later, unmerged, commented, Settings, Host,
}
use ci_infra_gardener.Cherrypicker.Picking.Calling.{Adds, Adds-none, Adds-one, Adds-if, Adds-bind}
use ci_infra_gardener.Cherrypicker.Requests.{
  CommentEvent, PullRequest, Directory, is_nil, keys, Handler, ask, is_trusted_user, answer,
  if_trusted, pick_targets, handle_commands,
}
use ci_infra_gardener.Cherrypicker.Requests.Trusting.{IsComment}

module _ {W E : Type 0} (host : Host W E) (directory : Directory W E) (settings : Settings)
    (event : CommentEvent) (pr : PullRequest) where
  -- GitHub never says that the author of the comment is a member, or else a collaborator.
  abbrev pub IsUntrusted : Type 0
  IsUntrusted =
      (settings.allow_all ≡ false)
      × ((w : W)
          → (is_trusted_user host directory settings event.org event.repo event.comment.author w).0
            ≢ ok true)

  answer-Adds : (r : Reply) → Adds IsComment (answer host directory settings event pr r)
  answer-Adds r = Adds-one _ (commented event.number (some event.comment) r) tt λ s. refl

  abbrev asked : Handler host directory settings Bool
  asked =
      ask host directory settings
        (is_trusted_user host directory settings event.org event.repo event.comment.author)

  if_trusted-Adds :
      (m : Handler host directory settings (Unit {0}))
      → Adds IsComment m
      → Adds IsComment (if_trusted host directory settings event pr m)
  unfolding if_trusted
  if_trusted-Adds m h = Adds-if _ settings.allow_all h (
      Adds-bind _ asked (Adds-none _ λ s. refl)
        λ trusted. Adds-if _ trusted h (answer-Adds not_trusted))

  untrusted-Adds :
      (m : Handler host directory settings (Unit {0}))
      → IsUntrusted
      → Adds IsComment (if_trusted host directory settings event pr m)
  unfolding if_trusted
  untrusted-Adds m (restricted, never) = record {
    from = λ s.
        let t =
          (is_trusted_user host directory settings event.org event.repo event.comment.author
            s.world).0 in
        elim (Result-cases t) [
          | inl (true, good) ↦ absurd (never s.world good)
          | inl (false, good) ↦
              rw (restricted, good)
                ((commented event.number (some event.comment) not_trusted ∷ []), refl, (tt, tt))
          | inr (e, bad) ↦ rw (restricted, bad) ([], refl, tt)
        ];
  }

  -- The commands of a comment are only answered, by comments, if the pull request is not merged, or if not
  -- everyone is allowed and the author of the comment is not trusted.
  pub handle_commands-refused :
      (commands : Commands)
      → (pr.merged ≡ false) ⊎ IsUntrusted
      → Adds IsComment (handle_commands host directory settings event pr commands)
  unfolding handle_commands
  handle_commands-refused all refused =
      let has_invalid_branch = is_some (lookup pr.base_ref all) in
      let commands = delete pr.base_ref all in
      Adds-if _ (is_nil all) (Adds-none _ λ s. refl) (
        Adds-if _ (is_nil commands) (answer-Adds on_base_branch) (
          Adds-if _ (not event.is_closed)
            (if_trusted-Adds _ (answer-Adds (later (sort (keys commands)) has_invalid_branch)))
            (elim refused [
              | inl open_pr ↦ rw open_pr (answer-Adds unmerged)
              | inr untrusted ↦ Adds-if _ (not pr.merged) (answer-Adds unmerged) (
                  untrusted-Adds
                    (pick_targets host directory settings event pr has_invalid_branch commands)
                    untrusted)
            ])))
