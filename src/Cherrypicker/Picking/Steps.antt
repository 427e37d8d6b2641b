-- ===== src/Cherrypicker/Picking/Steps.antt =====
-- The steps of a cherry-pick: Server.handle of prow/external-plugins/cherrypicker/server.go, from the last to
-- the first.
use ci_infra_gardener.Prelude.{
  ℕ, ◌||◌, Option, none, some, List, [], ◌∷◌, ◌++◌, Text, codes, ◌==◌, has_prefix, if◌then◌else◌,
  ok, pure, attempt, perform, observe, handling, ◌>>=◌, ◌>>◌,
}
use ci_infra_gardener.Cherrypicker.Commands.{is_word}
use ci_infra_gardener.Cherrypicker.Texts.{
  title_for, cherry_pick_branch, kind_label_prefix, kind_labels_from_issue_labels, release_notes,
}
use ci_infra_gardener.Cherrypicker.Picking.{
  Action, Host, Pick, Pusher, Settings, already_picked, applied, apply_failed, ask, assigned, both,
  cannot_checkout, cannot_push, checked_out, cleaned, cloned, commented, create_comment,
  create_issue, created, do_call, edited, failing_with, get_patch, get_pusher_and_org, labelled,
  made_branch, not_created, one, opened, patch_failed, push, push_failed, pushed, update_failed,
}

module _ {W E : Type 0} (host : Host W E) (settings : Settings) where
  -- `git am` has failed: a comment, and an issue if it is wished.
  unfoldable pub report_conflict : Pick → (title : Text) → E → Action host settings (Unit {0})
  unfolding create_comment create_issue
  report_conflict p title e = failing_with host settings (one host settings e) (
      both host settings (create_comment host settings p apply_failed)
        (if settings.issue_on_conflict then create_issue host settings p title else pure tt))

  unfoldable pub body_for : Pick → (number : ℕ) → (kinds : List Text) → Text
  body_for p number kinds =
      host.create_cherrypick_body p.number (if settings.prow_assignments then p.requestor else [])
        (release_notes p.author p.org p.repo number (host.note_matches p.body)) p.chain_branches
        kinds

  -- A comment that is posted as it is; a failure is only logged.
  unfoldable pub report_update : Pick → ℕ → Action host settings (Unit {0})
  report_update p number = do
    attempt (
        do_call host settings (commented number none update_failed)
          (host.create_comment p.org p.repo number none update_failed))
    pure tt

  unfoldable pub edit_body : Pick → ℕ → (kinds : List Text) → Action host settings (Unit {0})
  unfolding body_for report_update
  edit_body p number kinds =
      handling
        (do_call host settings (edited number (body_for p number kinds))
          (host.edit_body p.org p.repo number (body_for p number kinds)))
        (λ e. report_update p number) λ _. pure tt

  -- The body is written again with the number of the new pull request; failures are only logged.
  unfoldable pub update_body : Pick → ℕ → (kinds : List Text) → Action host settings (Unit {0})
  unfolding edit_body
  update_body p number kinds =
      handling (ask host settings (host.get_pull_request p.org p.repo number))
        (λ e. report_update p number) λ _. edit_body p number kinds

  unfoldable pub add_labels : Pick → ℕ → List Text → Action host settings (Unit {0})
  add_labels p number [] = pure tt
  add_labels p number (label ∷ labels) = do
    do_call host settings (labelled number label) (host.add_label p.org p.repo number label)
    add_labels p number labels

  -- The labels of the original that are copied.
  unfoldable pub copied_labels : List Text → List Text
  copied_labels [] = []
  copied_labels (label ∷ labels) =
      let rest = copied_labels labels in
      if has_prefix label (codes "area/") || has_prefix label kind_label_prefix
      then label ∷ rest
      else rest

  -- A failure to assign is only logged.
  unfoldable pub assign : Pick → ℕ → Action host settings (Unit {0})
  assign p number =
      if settings.prow_assignments
      then (do
        attempt (
            do_call host settings (assigned number p.requestor)
              (host.assign_issue p.org p.repo number p.requestor))
        pure tt)
      else pure tt

  -- The kinds of the original; without its labels there are none.
  unfoldable pub kinds_of : Pick → Action host settings (List Text)
  kinds_of p =
      handling (observe (host.get_issue_labels p.org p.repo p.number)) (λ e. pure [])
        λ labels. pure (kind_labels_from_issue_labels labels)

  unfoldable pub finish_pull_request :
      Pick → ℕ → (kinds : List Text) → Action host settings (Unit {0})
  unfolding update_body add_labels copied_labels assign
  finish_pull_request p number kinds = do
    attempt (create_comment host settings p (created number))
    update_body p number kinds
    add_labels p number settings.labels
    add_labels p number (copied_labels p.labels)
    assign p number

  abbrev pub head_for : Pick → (push_org branch : Text) → Text
  head_for p push_org branch =
      if push_org == p.org then branch else push_org ++ (codes ":" ++ branch)

  -- The pull request is opened with the kinds in its body.
  unfoldable pub create_pull_request :
      Pick → (push_org title branch : Text) → (kinds : List Text) → Action host settings (Unit {0})
  unfolding finish_pull_request body_for
  create_pull_request p push_org title branch kinds =
      let body = body_for p p.number kinds in
      let head = head_for p push_org branch in
      handling
        (do_call host settings (opened title body head p.target_branch)
          (host.create_pull_request p.org p.repo title body head p.target_branch))
        (λ es. failing_with host settings es (create_comment host settings p not_created))
        λ number. finish_pull_request p number kinds

  unfoldable pub open_pull_request :
      Pick → (push_org title branch : Text) → Action host settings (Unit {0})
  unfolding kinds_of create_pull_request
  open_pull_request p push_org title branch = do
    kinds ← kinds_of p
    create_pull_request p push_org title branch kinds

  unfoldable pub push_branch :
      Pick → Pusher → (push_org branch : Text) → Action host settings (Unit {0})
  unfolding push open_pull_request
  push_branch p pusher push_org branch =
      handling (do_call host settings (pushed pusher branch) (push host settings pusher branch))
        (λ es. failing_with host settings es (create_comment host settings p push_failed))
        λ _. open_pull_request p push_org (title_for p.title p.base_branch p.target_branch) branch

  -- The patch is applied and the branch is pushed.
  unfoldable pub apply_patch :
      Pick → Pusher → (push_org path branch : Text) → Action host settings (Unit {0})
  unfolding report_conflict push_branch
  apply_patch p pusher push_org path branch =
      handling (perform (applied path) (host.am path))
        (λ e. report_conflict p (title_for p.title p.base_branch p.target_branch) e)
        λ _. push_branch p pusher push_org branch

  -- The URL of a pull request from the branch.
  unfoldable pub find_pick : (branch : Text) → List (Text × Text) → Option Text
  find_pick branch [] = none
  find_pick branch ((head, url) ∷ heads) =
      let rest = find_pick branch heads in
      if head == settings.bot_login ++ (codes ":" ++ branch) then some url else rest

  unfoldable pub existing_pick : Pick → (branch : Text) → Action host settings (Option Text)
  unfolding find_pick
  existing_pick p branch s =
      if host.branch_exists branch s.world
      then (do
        heads ← ask host settings (host.list_heads p.org p.repo)
        pure (find_pick branch heads))
          s
      else (ok none, s)

  -- The branch is new, or there is a pull request from it.
  unfoldable pub pick_to :
      Pick → Pusher → (push_org path branch : Text) → Option Text → Action host settings (Unit {0})
  unfolding create_comment apply_patch
  pick_to p pusher push_org path branch (some url) =
      create_comment host settings p (already_picked url)
  pick_to p pusher push_org path branch none = do
    do_call host settings (made_branch branch) (host.checkout_new_branch branch)
    apply_patch p pusher push_org path branch

  abbrev pub commit_email : Text
  commit_email = if is_word settings.email then settings.email else settings.bot_email

  -- With the patch in a file.
  unfoldable pub pick_patch :
      Pick → Pusher → (push_org path : Text) → Action host settings (Unit {0})
  unfolding existing_pick pick_to
  pick_patch p pusher push_org path = do
    let branch = cherry_pick_branch p.number p.target_branch
    ask host settings (host.config (codes "user.name") settings.bot_login)
    ask host settings (host.config (codes "user.email") commit_email)
    existing ← existing_pick p branch
    pick_to p pusher push_org path branch existing

  unfoldable pub fetch_and_pick :
      Pick → Pusher → (push_org : Text) → Action host settings (Unit {0})
  unfolding get_patch pick_patch create_comment
  fetch_and_pick p pusher push_org =
      handling (get_patch host settings p) (λ e. create_comment host settings p patch_failed)
        λ path. pick_patch p pusher push_org path

  -- In the clone.
  unfoldable pub pick_in_clone : Pick → Pusher → (push_org : Text) → Action host settings (Unit {0})
  unfolding fetch_and_pick create_comment
  pick_in_clone p pusher push_org =
      handling (do_call host settings (checked_out p.target_branch) (host.checkout p.target_branch))
        (λ e. create_comment host settings p cannot_checkout) λ _. fetch_and_pick p pusher push_org

  -- The deferred Clean, of which an error is only logged.
  abbrev pub deferring_clean : Action host settings (Unit {0}) → Action host settings (Unit {0})
  deferring_clean m s = let (r, t) = m s in (r, (perform cleaned host.clean t).1)

  unfoldable pub clone_and_pick : Pick → Pusher × Text → Action host settings (Unit {0})
  unfolding pick_in_clone
  clone_and_pick p (pusher, push_org) = do
    do_call host settings cloned (host.client_for p.org p.repo)
    deferring_clean (pick_in_clone p pusher push_org)

  unfoldable pub handle : Pick → Action host settings (Unit {0})
  unfolding get_pusher_and_org clone_and_pick
  handle p =
      handling (get_pusher_and_org host settings p)
        (λ e. create_comment host settings p cannot_push) λ way. clone_and_pick p way
