-- ===== src/Cherrypicker/Requests/Merged.antt =====
-- Pull requests that are merged, labelled or opened: handlePullRequest of
-- prow/external-plugins/cherrypicker/server.go.
use ci_infra_gardener.Prelude.{
  Bool, true, false, not, ◌&&◌, ◌||◌, none, some, List, [], ◌∷◌, Text, ◌==◌, contains, is_some,
  or_else, if◌then◌else◌, ok, err, pure, attempt, ◌>>=◌, ◌>>◌,
}
use ci_infra_gardener.Prelude.Sets.{lookup, put}
use ci_infra_gardener.Cherrypicker.Commands.{Commands}
use ci_infra_gardener.Cherrypicker.Picking.{Comment, base_branch_label, Settings, Pick, Host}
use ci_infra_gardener.Cherrypicker.Picking.Steps.{handle}
use ci_infra_gardener.Cherrypicker.Requests.{
  labeled, other_action, Action, PullRequestEvent, Directory, panicked, is_nil, Requests, Request,
  gather_comments, gather_labels, has_label, of_trusted, flatten, Handler, ask, reply,
  list_trusted_users, collect, aggregated,
}

abbrev pub is_handled : Action → Bool
is_handled other_action = false
is_handled _ = true

abbrev pub is_labeled : Action → Bool
is_labeled labeled = true
is_labeled _ = false

-- An entry for the author is made if there is none.
unfoldable pub with_author : Text → Requests → Requests
with_author author requests =
    if is_some (lookup author requests) then requests else put author [] requests

module _ {W E : Type 0} (host : Host W E) (directory : Directory W E) (settings : Settings)
    (event : PullRequestEvent) where
  abbrev pub merged_pick : (chains : Commands) → Request → Pick
  merged_pick chains r = record {
    author = event.pull_request.author;
    requestor = r.requestor;
    comment = r.comment;
    org = event.org;
    repo = event.repo;
    target_branch = r.target_branch;
    base_branch = event.pull_request.base_ref;
    chain_branches = or_else (lookup r.target_branch chains) [];
    title = event.pull_request.title;
    body = event.pull_request.body;
    number = event.number;
    labels = event.pull_request.labels;
  }

  abbrev pub refuse_base : Request → Handler host directory settings (Unit {0})
  refuse_base r = do
    attempt (
        reply host directory settings event.org event.repo event.number r.comment base_branch_label)
    pure tt

  -- The loop over requestors and their branches; each branch is handled once.
  unfoldable pub handle_requests :
      (chains : Commands)
      → (handled : List Text) → List Request
      → Handler host directory settings (List E)
  handle_requests chains handled [] s = (ok [], s)
  handle_requests chains handled (r ∷ rs) s =
      if contains handled r.target_branch
      then handle_requests chains handled rs s
      else if r.target_branch == event.pull_request.base_ref
      then (refuse_base r >> handle_requests chains handled rs) s
      else collect host directory settings (handle host settings (merged_pick chains r))
          (handle_requests chains (r.target_branch ∷ handled) rs) s

  unfoldable pub trusted_requests : Requests → Handler host directory settings Requests
  unfolding list_trusted_users
  trusted_requests requests = if settings.allow_all then pure requests else (do
    logins ←
        ask host directory settings
          (list_trusted_users host directory settings event.org event.repo)
    pure (of_trusted logins requests))

  -- From the requests in comments, the chains and the labels.
  unfoldable pub handle_gathered :
      Requests × Commands → (labels : List Text) → Handler host directory settings (Unit {0})
  unfolding trusted_requests handle_requests with_author
  handle_gathered (requests, chains) labels =
      let labelled = has_label settings.label_prefix labels in
      let all =
        gather_labels settings.label_prefix event.pull_request.author labels
          (with_author event.pull_request.author requests) in
      if is_nil requests && not labelled
      then pure tt
      else if not labelled && is_labeled event.action
      then pure tt
      else (do
        allowed ← trusted_requests all
        es ← handle_requests chains [] (flatten allowed)
        aggregated host directory settings es)

  unfoldable pub gathered : List Comment → Handler host directory settings (Requests × Commands)
  gathered comments s =
      (elim (gather_comments comments ([], [])) [ none ↦ err panicked | some g ↦ ok g ], s)

  abbrev pub description : Comment
  description = record { author = event.pull_request.author; body = event.pull_request.body }

  unfoldable pub handle_pull_request : Handler host directory settings (Unit {0})
  unfolding gathered handle_gathered
  handle_pull_request =
      if not (is_handled event.action)
      then pure tt
      else if not event.pull_request.merged || not event.pull_request.has_merge_sha
      then pure tt
      else (do
        comments ←
            ask host directory settings
              (directory.list_issue_comments event.org event.repo event.number)
        found ← gathered (description ∷ comments)
        labels ←
            ask host directory settings (host.get_issue_labels event.org event.repo event.number)
        handle_gathered found labels)
