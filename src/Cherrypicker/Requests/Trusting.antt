-- ===== src/Cherrypicker/Requests/Trusting.antt =====
-- Who is served: handleIssueComment and handlePullRequest of
-- prow/external-plugins/cherrypicker/server.go.
use ci_infra_gardener.Prelude.{
  ◌≡◌, refl, inl, inr, ◌⊎◌, false, not, ◌&&◌, ◌||◌, List, [], ◌∷◌, ◌++◌, Text, ◌==◌, some, arith,
  contains, All, Exec, ok, Trace, pure, attempt,
}
use ci_infra_gardener.Cherrypicker.Commands.{Commands}
use ci_infra_gardener.Cherrypicker.Picking.{
  Comment, base_branch_label, Call, commented, Settings, Host,
}
use ci_infra_gardener.Cherrypicker.Picking.Steps.{handle}
use ci_infra_gardener.Cherrypicker.Picking.Calling.{
  Adds, Adds-none, Adds-one, Adds-if, Adds-choice, Adds-attempt, Adds-bind, Adds-then, Adds-each,
  Adds-Adds,
}
use ci_infra_gardener.Cherrypicker.Picking.Conflicts.{IsAllowed, handle-IsAllowed}
use ci_infra_gardener.Cherrypicker.Requests.{
  PullRequestEvent, Directory, is_nil, Requests, Request, of_trusted, flatten, gather_comments,
  Handler, ask, reply, list_trusted_users, collect, errors_of, aggregated, gather_labels, has_label,
}
use ci_infra_gardener.Cherrypicker.Requests.Asking.{
  IsGrantable, flatten-IsGrantable, gathered-AreAsked,
}
use ci_infra_gardener.Cherrypicker.Requests.Merged.{
  merged_pick, refuse_base, handle_requests, trusted_requests, handle_gathered, gathered,
  description, with_author, is_labeled, is_handled, handle_pull_request,
}

abbrev pub IsComment : Call → Type 0
IsComment (commented number answered reply) = Unit
IsComment _ = ⊥

module _ {W E : Type 0} (host : Host W E) (directory : Directory W E) (settings : Settings) where
  aggregated-Adds :
      (OK : Call → Type 0) (es : List E) → Adds OK (aggregated host directory settings es)
  aggregated-Adds OK [] = Adds-none OK λ s. refl
  aggregated-Adds OK (e ∷ es) = Adds-none OK λ s. refl

  collect-Adds :
      (OK : Call → Type 0) (m : Exec (Trace W Call) (List E) (Unit {0}))
      (rest : Handler host directory settings (List E))
      → Adds OK m
      → Adds OK rest
      → Adds OK (collect host directory settings m rest)
  collect-Adds OK m rest h k = Adds-bind OK (attempt m) (Adds-attempt OK h) λ result.
      Adds-bind OK rest k
        λ es. Adds-none OK {m = pure (errors_of host directory settings result ++ es)} λ s. refl

  module _ (event : PullRequestEvent) (logins : List Text) where
    -- A call of a cherry-pick, to another branch than the base, that a user from the list asked for in a comment
    -- or in the description, or that a label asks for, where the author is such a user. The comments and
    -- labels are answers of GitHub for the pull request.
    pub record IsServed (c : Call) : Type 0 where
      pub listed : List Comment
      pub labels : List Text
      pub commented_in : W
      pub labelled_in : W
      pub has_comments :
          (directory.list_issue_comments event.org event.repo event.number commented_in).0
          ≡ ok listed
      pub has_labels :
          (host.get_issue_labels event.org event.repo event.number labelled_in).0 ≡ ok labels
      pub request : Request
      pub chains : Commands
      pub asked :
          IsGrantable settings.label_prefix event.pull_request.author
            (description host directory settings event ∷ listed)
            labels
            logins
            request
      pub not_to_base : request.target_branch == event.pull_request.base_ref ≡ false
      pub allowed : IsAllowed settings (merged_pick host directory settings event chains request) c

    abbrev pub IsGranted : Call → Type 0
    IsGranted c = IsComment c ⊎ IsServed c

    abbrev Grants : {A : Type 0} → Handler host directory settings A → Type 0
    Grants m = Adds IsGranted m

    module _ (listed : List Comment) (labels : List Text) (w1 w2 : W)
        (has_comments : (directory.list_issue_comments event.org event.repo event.number w1).0
          ≡ ok listed)
        (has_labels : (host.get_issue_labels event.org event.repo event.number w2).0
          ≡ ok labels) where
      abbrev IsTrusted : Request → Type 0
      IsTrusted r =
          IsGrantable settings.label_prefix event.pull_request.author
            (description host directory settings event ∷ listed) labels logins r

      handle_requests-Grants :
          (chains : Commands) (handled : List Text) (rs : List Request)
          → All IsTrusted rs
          → Grants (handle_requests host directory settings event chains handled rs)
      unfolding handle_requests
      handle_requests-Grants chains handled [] h = Adds-none _ λ s. refl
      handle_requests-Grants chains handled (r ∷ rs) h =
          let p = merged_pick host directory settings event chains r in
          Adds-choice _ (contains handled r.target_branch)
            (λ _. handle_requests-Grants chains handled rs h.1)
            λ _.
              Adds-choice _ (r.target_branch == event.pull_request.base_ref)
                (λ _.
                  Adds-bind _ (refuse_base host directory settings event r)
                    (Adds-one _ (commented event.number r.comment base_branch_label) (inl tt)
                      λ s. refl)
                    λ _. handle_requests-Grants chains handled rs h.1)
                λ other.
                  collect-Adds _ (handle host settings p)
                    (handle_requests host directory settings event chains
                      (r.target_branch ∷ handled) rs)
                    (Adds-Adds
                      (λ c allowed. inr (record {
                        listed = listed;
                        labels = labels;
                        commented_in = w1;
                        labelled_in = w2;
                        has_comments = has_comments;
                        has_labels = has_labels;
                        request = r;
                        chains = chains;
                        asked = h.0;
                        not_to_base = other;
                        allowed = allowed;
                      }))
                      (handle-IsAllowed host settings p))
                    (handle_requests-Grants chains (r.target_branch ∷ handled) rs h.1)

    module _ (restricted : settings.allow_all ≡ false)
        (trusted : (w : W)
          → (list_trusted_users host directory settings event.org event.repo w).0 ≡ ok logins) where
      trusted-Adds : (all : Requests) → Grants (trusted_requests host directory settings event all)
      unfolding trusted_requests
      trusted-Adds all = record { from = λ s. rw (restricted, trusted s.world) ([], refl, tt) }

      trusted-of_trusted :
          (all : Requests) (s : Trace W Call)
          → (trusted_requests host directory settings event all s).0 ≡ ok (of_trusted logins all)
      unfolding trusted_requests
      trusted-of_trusted all s = rw (restricted, trusted s.world) refl

      gathered-Grants :
          (listed : List Comment) (labels : List Text) (w1 w2 : W)
          → (directory.list_issue_comments event.org event.repo event.number w1).0 ≡ ok listed
          → (host.get_issue_labels event.org event.repo event.number w2).0 ≡ ok labels
          → (found : Requests × Commands)
          → gather_comments (description host directory settings event ∷ listed) ([], [])
            ≡ some found
          → Grants (handle_gathered host directory settings event found labels)
      unfolding handle_gathered
      gathered-Grants listed labels w1 w2 c l (requests, chains) e =
          let labelled = has_label settings.label_prefix labels in
          let author = event.pull_request.author in
          let comments = description host directory settings event ∷ listed in
          let all =
            gather_labels settings.label_prefix author labels (with_author author requests) in
          let allowed = of_trusted logins all in
          let loop = handle_requests host directory settings event chains [] (flatten allowed) in
          Adds-if _ (is_nil requests && not labelled) (Adds-none _ λ s. refl) (
            Adds-if _ (not labelled && is_labeled event.action) (Adds-none _ λ s. refl) (
              Adds-then _ (trusted_requests host directory settings event all) _ allowed
                (trusted-Adds all) (trusted-of_trusted all)
                (Adds-bind _ loop
                  (handle_requests-Grants listed labels w1 w2 c l chains [] (flatten allowed) (
                    flatten-IsGrantable settings.label_prefix author comments labels logins all (
                      gathered-AreAsked settings.label_prefix author comments labels
                        (requests, chains) e)))
                  (aggregated-Adds _))))

      -- Where not everyone is allowed, each call for a merged pull request is a comment or belongs to a
      -- cherry-pick of it, to a branch other than the base. That branch was asked for by a user from the list
      -- of trusted ones, in a comment of that user or in the description, or by a label, where the author of
      -- the pull request is from the list.
      pub handle_pull_request-IsGranted :
          Adds IsGranted (handle_pull_request host directory settings event)
      unfolding handle_pull_request gathered
      handle_pull_request-IsGranted =
          Adds-if _ (not (is_handled event.action)) (Adds-none _ λ s. refl) (
            Adds-if _ (not event.pull_request.merged || not event.pull_request.has_merge_sha)
              (Adds-none _ λ s. refl)
              (Adds-each _
                (ask host directory settings
                  (directory.list_issue_comments event.org event.repo event.number))
                _ (Adds-none _ λ s. refl)
                λ comments s1 c.
                  Adds-each _
                    (gathered host directory settings event
                      (description host directory settings event ∷ comments))
                    _ (Adds-none _ λ s. refl)
                    λ found s2 g.
                      Adds-each _
                        (ask host directory settings
                          (host.get_issue_labels event.org event.repo event.number))
                        _ (Adds-none _ λ s. refl)
                        λ labels s3 l.
                          gathered-Grants comments labels s1.world s3.world (ground (arith, c))
                            (ground (arith, l)) found (ground (arith, g))))
