-- ===== src/Cherrypicker/Picking/Publishing.antt =====
-- Which calls the end of a cherry-pick makes, from the report of a conflict or the push of the branch on:
-- Server.handle of prow/external-plugins/cherrypicker/server.go.
use ci_infra_gardener.Prelude.{
  ℕ, ◌||◌, refl, inl, inr, ◌⊎◌, Option, none, List, [], ◌∷◌, Text, codes, has_prefix, Has, All,
  Bool-cases, Exec, Trace, pure, attempt, observe,
}
use ci_infra_gardener.Cherrypicker.Texts.{
  title_for, cherry_pick_branch, patch_path, kind_label_prefix, kind_labels_from_issue_labels,
}
use ci_infra_gardener.Cherrypicker.Picking.{
  Pusher, Comment, Reply, Call, commented, issued, cloned, cleaned, wrote, checked_out, made_branch,
  applied, pushed, opened, edited, labelled, assigned, Settings, Pick, Host, apply_failed,
  push_failed, not_created, issue_failed, created, issue_created, update_failed, ask, do_call,
  create_comment, create_issue, push, both, failing_with,
}
use ci_infra_gardener.Cherrypicker.Picking.Steps.{
  report_conflict, body_for, update_body, add_labels, copied_labels, assign, kinds_of,
  finish_pull_request, create_pull_request, head_for, open_pull_request, push_branch, report_update,
  edit_body,
}
use ci_infra_gardener.Cherrypicker.Picking.Calling.{
  IsAfter-trans, Adds, Adds-none, Adds-one, Adds-if, Adds-handling, Adds-bind,
}

-- The calls that a cherry-pick makes before it has applied the patch, or to report that it cannot.
pub record Reports (OK : Call → Type 0) (p : Pick) : Type 0 where
  pub commented :
      (number : ℕ) (answered : Option Comment) (reply : Reply)
      → OK (commented number answered reply)
  pub issued : (title : Text) → OK (issued title (p.requestor ∷ []))
  pub cloned : OK cloned
  pub cleaned : OK cleaned
  pub wrote : OK (wrote (patch_path p.org p.repo p.number p.target_branch))
  pub checked_out : OK (checked_out p.target_branch)
  pub made_branch : OK (made_branch (cherry_pick_branch p.number p.target_branch))
  pub applied : (path : Text) → OK (applied path)

-- The calls that it makes after that.
pub record Publishes (OK : Call → Type 0) (settings : Settings) (p : Pick) : Type 0 where
  pub pushed : (pusher : Pusher) → OK (pushed pusher (cherry_pick_branch p.number p.target_branch))
  pub opened :
      (body head : Text)
      → OK (opened (title_for p.title p.base_branch p.target_branch) body head p.target_branch)
  pub edited : (number : ℕ) (body : Text) → OK (edited number body)
  pub labelled :
      (number : ℕ) (label : Text)
      → Has label settings.labels ⊎ Has label p.labels
      → OK (labelled number label)
  pub assigned : (number : ℕ) → OK (assigned number p.requestor)

All_of_Has : {A : Type 0} {P : A → Type 0} (xs : List A) → ((x : A) → Has x xs → P x) → All P xs
All_of_Has [] h = tt
All_of_Has (x ∷ xs) h = (h x (inl refl), All_of_Has xs λ y k. h y (inr k))

module _ {W E : Type 0} (host : Host W E) (settings : Settings) (OK : Call → Type 0) (p : Pick)
    (reports : Reports OK p) where
  abbrev Act : {A : Type 0} → Exec (Trace W Call) (List E) A → Type 0
  Act m = Adds OK m

  pub create_comment-Adds : (reply : Reply) → Act (create_comment host settings p reply)
  unfolding create_comment
  create_comment-Adds reply =
      Adds-one OK (commented p.number p.comment reply) (reports.commented p.number p.comment reply)
        λ s. refl

  both-Adds :
      {m n : Exec (Trace W Call) (List E) (Unit {0})} → Act m → Act n → Act (both host settings m n)
  both-Adds {m} {n} h k = record {
    from = λ s. IsAfter-trans OK s (m s).1 (n (m s).1).1 (h.from s) (k.from (m s).1);
  }

  create_issue-Adds : (title : Text) → Act (create_issue host settings p title)
  unfolding create_issue
  create_issue-Adds title =
      Adds-handling OK
        (do_call host settings (issued title (p.requestor ∷ []))
          (host.create_issue p.org p.repo title (p.requestor ∷ [])))
        (λ e. create_comment host settings p issue_failed)
        (λ number. create_comment host settings p (issue_created number))
        (Adds-one OK (issued title (p.requestor ∷ [])) (reports.issued title) λ s. refl)
        (λ e. create_comment-Adds issue_failed) λ number. create_comment-Adds (issue_created number)

  failing-Adds :
      (es : List E) {m : Exec (Trace W Call) (List E) (Unit {0})}
      → Act m
      → Act (failing_with host settings es m)
  failing-Adds es {m} h = record { from = λ s. h.from s }

  pub report_conflict-Adds : (title : Text) (e : E) → Act (report_conflict host settings p title e)
  unfolding report_conflict
  report_conflict-Adds title e = failing-Adds (e ∷ []) (
      both-Adds (create_comment-Adds apply_failed)
        (Adds-if OK settings.issue_on_conflict (create_issue-Adds title) (Adds-none OK λ s. refl)))

  Has-copied_labels :
      (labels : List Text) (label : Text)
      → Has label (copied_labels host settings labels)
      → Has label labels
  unfolding copied_labels
  Has-copied_labels [] label h = h
  Has-copied_labels (l ∷ labels) label h =
      elim (Bool-cases (has_prefix l (codes "area/") || has_prefix l kind_label_prefix)) [
        | inl b ↦ elim (rw b at h) [
          | inl e ↦ inl e
          | inr k ↦ inr (Has-copied_labels labels label k)
        ]
        | inr b ↦ inr (Has-copied_labels labels label (rw b at h))
      ]

  module _ (publishes : Publishes OK settings p) where
    report_update-Adds : (number : ℕ) → Act (report_update host settings p number)
    unfolding report_update
    report_update-Adds number =
        Adds-one OK (commented number none update_failed)
          (reports.commented number none update_failed) λ s. refl

    edit_body-Adds : (number : ℕ) (kinds : List Text) → Act (edit_body host settings p number kinds)
    unfolding edit_body
    edit_body-Adds number kinds =
        let body = body_for host settings p number kinds in
        Adds-handling OK
          (do_call host settings (edited number body) (host.edit_body p.org p.repo number body))
          (λ e. report_update host settings p number) (λ _. pure tt)
          (Adds-one OK (edited number body) (publishes.edited number body) λ s. refl)
          (λ e. report_update-Adds number) λ _. Adds-none OK λ s. refl

    update_body-Adds :
        (number : ℕ) (kinds : List Text) → Act (update_body host settings p number kinds)
    unfolding update_body
    update_body-Adds number kinds =
        Adds-handling OK (ask host settings (host.get_pull_request p.org p.repo number))
          (λ e. report_update host settings p number) (λ _. edit_body host settings p number kinds)
          (Adds-none OK λ s. refl) (λ e. report_update-Adds number) λ _. edit_body-Adds number kinds

    add_labels-Adds :
        (number : ℕ) (labels : List Text)
        → All (λ label. Has label settings.labels ⊎ Has label p.labels) labels
        → Act (add_labels host settings p number labels)
    unfolding add_labels
    add_labels-Adds number [] h = Adds-none OK λ s. refl
    add_labels-Adds number (label ∷ labels) h =
        Adds-bind OK
          (do_call host settings (labelled number label) (host.add_label p.org p.repo number label))
          (Adds-one OK (labelled number label) (publishes.labelled number label h.0) λ s. refl)
          λ _. add_labels-Adds number labels h.1

    assign-Adds : (number : ℕ) → Act (assign host settings p number)
    unfolding assign
    assign-Adds number =
        Adds-if OK settings.prow_assignments
          (Adds-one OK (assigned number p.requestor) (publishes.assigned number) λ s. refl)
          (Adds-none OK λ s. refl)

    finish-Adds :
        (number : ℕ) (kinds : List Text) → Act (finish_pull_request host settings p number kinds)
    unfolding finish_pull_request create_comment
    finish-Adds number kinds =
        Adds-bind OK (attempt (create_comment host settings p (created number)))
          (Adds-one OK (commented p.number p.comment (created number)) (reports.commented _ _ _)
            λ s. refl)
          λ _.
            Adds-bind OK (update_body host settings p number kinds) (update_body-Adds number kinds)
              λ _.
                Adds-bind OK (add_labels host settings p number settings.labels)
                  (add_labels-Adds number settings.labels
                    (All_of_Has settings.labels λ label h. inl h))
                  λ _.
                    Adds-bind OK
                      (add_labels host settings p number (copied_labels host settings p.labels))
                      (add_labels-Adds number (copied_labels host settings p.labels) (
                        All_of_Has (copied_labels host settings p.labels)
                          λ label h. inr (Has-copied_labels p.labels label h)))
                      λ _. assign-Adds number

    kinds_of-Adds : Act (kinds_of host settings p)
    unfolding kinds_of
    kinds_of-Adds =
        Adds-handling OK (observe (host.get_issue_labels p.org p.repo p.number)) (λ e. pure [])
          (λ labels. pure (kind_labels_from_issue_labels labels)) (Adds-none OK λ s. refl)
          (λ e. Adds-none OK λ s. refl) λ labels. Adds-none OK λ s. refl

    create_pull_request-Adds :
        (push_org branch : Text) (kinds : List Text)
        → Act (
            create_pull_request host settings p push_org
              (title_for p.title p.base_branch p.target_branch)
              branch
              kinds)
    unfolding create_pull_request
    create_pull_request-Adds push_org branch kinds =
        let title = title_for p.title p.base_branch p.target_branch in
        let body = body_for host settings p p.number kinds in
        let head = head_for host settings p push_org branch in
        Adds-handling OK
          (do_call host settings (opened title body head p.target_branch)
            (host.create_pull_request p.org p.repo title body head p.target_branch))
          (λ es. failing_with host settings es (create_comment host settings p not_created))
          (λ number. finish_pull_request host settings p number kinds)
          (Adds-one OK (opened title body head p.target_branch) (publishes.opened body head)
            λ s. refl)
          (λ es. failing-Adds es (create_comment-Adds not_created))
          λ number. finish-Adds number kinds

    open_pull_request-Adds :
        (push_org branch : Text)
        → Act (
            open_pull_request host settings p push_org
              (title_for p.title p.base_branch p.target_branch)
              branch)
    unfolding open_pull_request
    open_pull_request-Adds push_org branch =
        Adds-bind OK (kinds_of host settings p) kinds_of-Adds
          λ kinds. create_pull_request-Adds push_org branch kinds

    pub push_branch-Adds :
        (pusher : Pusher) (push_org : Text)
        → Act (
            push_branch host settings p pusher push_org
              (cherry_pick_branch p.number p.target_branch))
    unfolding push_branch
    push_branch-Adds pusher push_org =
        let branch = cherry_pick_branch p.number p.target_branch in
        Adds-handling OK
          (do_call host settings (pushed pusher branch) (push host settings pusher branch))
          (λ es. failing_with host settings es (create_comment host settings p push_failed))
          (λ _.
            open_pull_request host settings p push_org
              (title_for p.title p.base_branch p.target_branch) branch)
          (Adds-one OK (pushed pusher branch) (publishes.pushed pusher) λ s. refl)
          (λ es. failing-Adds es (create_comment-Adds push_failed))
          λ _. open_pull_request-Adds push_org branch
