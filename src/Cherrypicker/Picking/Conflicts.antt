-- ===== src/Cherrypicker/Picking/Conflicts.antt =====
-- Which calls a cherry-pick makes, and which it does not make if the patch does not apply: Server.handle of
-- prow/external-plugins/cherrypicker/server.go.
use ci_infra_gardener.Prelude.{
  ◌≡◌, refl, inl, inr, ◌⊎◌, Option, none, some, List, [], ◌∷◌, Text, codes, Has, if◌then◌else◌,
  Bool-cases, Result-cases, Exec, err, Trace, pure, raise, perform, observe, ◌>>=◌,
}
use ci_infra_gardener.Cherrypicker.Texts.{title_for, cherry_pick_branch, patch_path}
use ci_infra_gardener.Cherrypicker.Picking.{
  Pusher, fork_pusher, central_pusher, Call, commented, issued, cloned, cleaned, wrote, checked_out,
  made_branch, applied, pushed, opened, edited, labelled, assigned, Settings, Pick, Host,
  cannot_push, cannot_checkout, patch_failed, already_picked, ask, do_call, create_comment,
  get_pusher_and_org, get_patch,
}
use ci_infra_gardener.Cherrypicker.Picking.Steps.{
  report_conflict, push_branch, apply_patch, find_pick, existing_pick, commit_email, pick_to,
  pick_patch, fetch_and_pick, pick_in_clone, deferring_clean, clone_and_pick, handle,
}
use ci_infra_gardener.Cherrypicker.Picking.Calling.{
  IsAfter-refl, IsAfter-trans, Adds, Adds-none, Adds-one, Adds-if, Adds-handling, Adds-failing,
  Adds-bind,
}
use ci_infra_gardener.Cherrypicker.Picking.Publishing.{
  Reports, Publishes, create_comment-Adds, report_conflict-Adds, push_branch-Adds,
}

module _ {W E : Type 0} (host : Host W E) (settings : Settings) (OK : Call → Type 0) (p : Pick)
    (reports : Reports OK p) where
  abbrev Act : {A : Type 0} → Exec (Trace W Call) (List E) A → Type 0
  Act m = Adds OK m

  -- No patch can be applied.
  abbrev pub IsConflicting : Type 0
  IsConflicting = (path : Text) (w : W) → (e : E) × ((host.am path w).0 ≡ err e)

  module _ (applies : IsConflicting ⊎ Publishes OK settings p) where
    apply_patch-Adds :
        (pusher : Pusher) (push_org path : Text)
        → Act (
            apply_patch host settings p pusher push_org path
              (cherry_pick_branch p.number p.target_branch))
    unfolding apply_patch
    apply_patch-Adds pusher push_org path =
        let title = title_for p.title p.base_branch p.target_branch in
        let branch = cherry_pick_branch p.number p.target_branch in
        let started =
          Adds-one OK {m = perform (applied path) (host.am path)} (applied path)
            (reports.applied path) λ s. refl in
        let reported = report_conflict-Adds host settings OK p reports title in
        elim applies [
          | inl conflicting ↦
              Adds-failing OK (perform (applied path) (host.am path))
                (report_conflict host settings p title)
                (λ _. push_branch host settings p pusher push_org branch) started
                (λ s. conflicting path s.world) reported
          | inr publishes ↦
              Adds-handling OK (perform (applied path) (host.am path))
                (report_conflict host settings p title)
                (λ _. push_branch host settings p pusher push_org branch) started reported
                λ _. push_branch-Adds host settings OK p reports publishes pusher push_org
        ]

    pick_to-Adds :
        (pusher : Pusher) (push_org path : Text) (existing : Option Text)
        → Act (
            pick_to host settings p pusher push_org path
              (cherry_pick_branch p.number p.target_branch)
              existing)
    unfolding pick_to
    pick_to-Adds pusher push_org path (some url) =
        create_comment-Adds host settings OK p reports (already_picked url)
    pick_to-Adds pusher push_org path none =
        let branch = cherry_pick_branch p.number p.target_branch in
        Adds-bind OK (do_call host settings (made_branch branch) (host.checkout_new_branch branch))
          (Adds-one OK (made_branch branch) reports.made_branch λ s. refl)
          λ _. apply_patch-Adds pusher push_org path

    existing-Adds : (branch : Text) → Act (existing_pick host settings p branch)
    unfolding existing_pick
    existing-Adds branch = record {
      from = λ s. elim (Bool-cases (host.branch_exists branch s.world)) [
        | inl b ↦ rw b ([], listed s, tt)
        | inr b ↦ rw b (IsAfter-refl OK s)
      ];
    }
      where
        listed :
            (s : Trace W Call)
            → ((ask host settings (host.list_heads p.org p.repo) >>= λ heads.
                  pure (find_pick host settings branch heads))
                s).1.calls
              ≡ s.calls
        listed s = elim (Result-cases (host.list_heads p.org p.repo s.world).0) [
          | inl (_, good) ↦ rw good refl
          | inr (_, bad) ↦ rw bad refl
        ]

    pick_patch-Adds :
        (pusher : Pusher) (push_org path : Text)
        → Act (pick_patch host settings p pusher push_org path)
    unfolding pick_patch
    pick_patch-Adds pusher push_org path =
        let branch = cherry_pick_branch p.number p.target_branch in
        Adds-bind OK (ask host settings (host.config (codes "user.name") settings.bot_login))
          (Adds-none OK λ s. refl)
          λ _.
            Adds-bind OK
              (ask host settings (host.config (codes "user.email") (commit_email host settings)))
              (Adds-none OK λ s. refl)
              λ _.
                Adds-bind OK (existing_pick host settings p branch) (existing-Adds branch)
                  λ existing. pick_to-Adds pusher push_org path existing

    get_patch-Adds : Act (get_patch host settings p)
    unfolding get_patch
    get_patch-Adds =
        let path = patch_path p.org p.repo p.number p.target_branch in
        Adds-bind OK (ask host settings (host.get_patch p.org p.repo p.number))
          (Adds-none OK λ s. refl)
          λ patch.
            Adds-bind OK (do_call host settings (wrote path) (host.write_file path patch))
              (Adds-one OK (wrote path) reports.wrote λ s. refl) λ _. Adds-none OK λ s. refl

    fetch_and_pick-Adds :
        (pusher : Pusher) (push_org : Text) → Act (fetch_and_pick host settings p pusher push_org)
    unfolding fetch_and_pick
    fetch_and_pick-Adds pusher push_org =
        Adds-handling OK (get_patch host settings p)
          (λ e. create_comment host settings p patch_failed)
          (λ path. pick_patch host settings p pusher push_org path) get_patch-Adds
          (λ e. create_comment-Adds host settings OK p reports patch_failed)
          λ path. pick_patch-Adds pusher push_org path

    pick_in_clone-Adds :
        (pusher : Pusher) (push_org : Text) → Act (pick_in_clone host settings p pusher push_org)
    unfolding pick_in_clone
    pick_in_clone-Adds pusher push_org =
        Adds-handling OK
          (do_call host settings (checked_out p.target_branch) (host.checkout p.target_branch))
          (λ e. create_comment host settings p cannot_checkout)
          (λ _. fetch_and_pick host settings p pusher push_org)
          (Adds-one OK (checked_out p.target_branch) reports.checked_out λ s. refl)
          (λ e. create_comment-Adds host settings OK p reports cannot_checkout)
          λ _. fetch_and_pick-Adds pusher push_org

    cleaning-Adds :
        {m : Exec (Trace W Call) (List E) (Unit {0})}
        → Act m
        → Act (deferring_clean host settings m)
    cleaning-Adds {m} h = record {
      from = λ s.
          IsAfter-trans OK s (m s).1 (deferring_clean host settings m s).1 (h.from s)
            (cleaned ∷ [], refl, (reports.cleaned, tt));
    }

    clone_and_pick-Adds : (way : Pusher × Text) → Act (clone_and_pick host settings p way)
    unfolding clone_and_pick
    clone_and_pick-Adds (pusher, push_org) =
        Adds-bind OK (do_call host settings cloned (host.client_for p.org p.repo))
          (Adds-one OK cloned reports.cloned λ s. refl)
          λ _. cleaning-Adds (pick_in_clone-Adds pusher push_org)

    pusher-Adds : Act (get_pusher_and_org host settings p)
    unfolding get_pusher_and_org
    pusher-Adds =
        Adds-handling OK (observe (host.ensure_fork settings.bot_login p.org p.repo))
          (λ e. if host.is_forbidden e then pure (central_pusher, p.org) else raise (e ∷ []))
          (λ fork. pure (fork_pusher fork, settings.bot_login)) (Adds-none OK λ s. refl)
          (λ e. Adds-if OK (host.is_forbidden e) (Adds-none OK λ s. refl) (Adds-none OK λ s. refl))
          λ fork. Adds-none OK λ s. refl

    pub handle-Adds : Adds OK (handle host settings p)
    unfolding handle
    handle-Adds =
        Adds-handling OK (get_pusher_and_org host settings p)
          (λ e. create_comment host settings p cannot_push)
          (λ way. clone_and_pick host settings p way) pusher-Adds
          (λ e. create_comment-Adds host settings OK p reports cannot_push) clone_and_pick-Adds

-- What a cherry-pick may call, with its branch, its target and the requestor.
abbrev pub IsAllowed : Settings → Pick → Call → Type 0
IsAllowed settings p (pushed pusher branch) = branch ≡ cherry_pick_branch p.number p.target_branch
IsAllowed settings p (opened title body head base) =
    (title ≡ title_for p.title p.base_branch p.target_branch) × (base ≡ p.target_branch)
IsAllowed settings p (checked_out branch) = branch ≡ p.target_branch
IsAllowed settings p (made_branch branch) = branch ≡ cherry_pick_branch p.number p.target_branch
IsAllowed settings p (wrote path) = path ≡ patch_path p.org p.repo p.number p.target_branch
IsAllowed settings p (labelled number label) = Has label settings.labels ⊎ Has label p.labels
IsAllowed settings p (assigned number login) = login ≡ p.requestor
IsAllowed settings p (issued title assignees) = assignees ≡ p.requestor ∷ []
IsAllowed settings p (commented number answered reply) = Unit
IsAllowed settings p cloned = Unit
IsAllowed settings p cleaned = Unit
IsAllowed settings p (applied path) = Unit
IsAllowed settings p (edited number body) = Unit

-- A call that pushes nothing and opens and changes no pull request.
abbrev pub IsReport : Call → Type 0
IsReport (pushed pusher branch) = ⊥
IsReport (opened title body head base) = ⊥
IsReport (edited number body) = ⊥
IsReport (labelled number label) = ⊥
IsReport (assigned number login) = ⊥
IsReport _ = Unit

module _ {W E : Type 0} (host : Host W E) (settings : Settings) (p : Pick) where
  -- A cherry-pick pushes nothing but the branch that is named after the pull request and the target, opens
  -- pull requests into the target branch only, and sets only configured labels and those of the original.
  pub handle-IsAllowed : Adds (IsAllowed settings p) (handle host settings p)
  handle-IsAllowed =
      handle-Adds host settings (IsAllowed settings p) p
        (record {
          commented = λ number answered reply. tt;
          issued = λ title. refl;
          cloned = tt;
          cleaned = tt;
          wrote = refl;
          checked_out = refl;
          made_branch = refl;
          applied = λ path. tt;
        })
        (inr (record {
          pushed = λ pusher. refl;
          opened = λ body head. (refl, refl);
          edited = λ number body. tt;
          labelled = λ number label h. h;
          assigned = λ number. refl;
        }))

  Reports-of : Reports IsReport p
  Reports-of = record {
    commented = λ number answered reply. tt;
    issued = λ title. tt;
    cloned = tt;
    cleaned = tt;
    wrote = tt;
    checked_out = tt;
    made_branch = tt;
    applied = λ path. tt;
  }

  -- If no patch can be applied then nothing is pushed, and no pull request is opened or changed.
  pub handle-IsReport :
      ((path : Text) (w : W) → (e : E) × ((host.am path w).0 ≡ err e))
      → Adds IsReport (handle host settings p)
  handle-IsReport conflicting = handle-Adds host settings IsReport p Reports-of (inl conflicting)
