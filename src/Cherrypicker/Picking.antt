-- ===== src/Cherrypicker/Picking.antt =====
-- One cherry-pick: Server.handle of prow/external-plugins/cherrypicker/server.go and what it calls. The calls
-- are recorded. The message of a comment is a value of the type `Reply`. An error is a list, as in an
-- aggregate, of errors of calls. The field `pusher`, for unit tests, is left out, as is the lock of a request:
-- requests are handled one after the other here.
pub mod Calling
pub mod Steps
pub mod Publishing
pub mod Conflicts
use ci_infra_gardener.Prelude.{
  ℕ, Bool, true, false, not, ◌&&◌, ◌||◌, Option, none, some, List, [], ◌∷◌, ◌++◌, Text, codes, ◌==◌,
  has_prefix, if◌then◌else◌, Exec, Result, ok, err, Trace, pure, raise, wrap, attempt, perform,
  observe, handling, ◌>>=◌, ◌>>◌,
}
use ci_infra_gardener.Cherrypicker.Commands.{is_word}
use ci_infra_gardener.Cherrypicker.Texts.{
  title_for, cherry_pick_branch, patch_path, kind_label_prefix, kind_labels_from_issue_labels,
  NoteMatch, release_notes,
}

pub data Pusher : Type 0 where
  central_pusher : Pusher
  fork_pusher : (fork_name : Text) → Pusher

pub record Comment : Type 0 where
  pub author : Text
  pub body : Text

pub data Reply : Type 0 where
  cannot_push cannot_checkout patch_failed apply_failed push_failed not_created issue_failed : Reply
  already_picked : (url : Text) → Reply
  created issue_created : ℕ → Reply
  update_failed on_base_branch base_branch_label unmerged not_trusted : Reply
  later : (branches : List Text) → (has_invalid_branch : Bool) → Reply

pub data Call : Type 0 where
  commented : (number : ℕ) (answered : Option Comment) → Reply → Call
  issued : (title : Text) (assignees : List Text) → Call
  cloned cleaned : Call
  wrote : (path : Text) → Call
  checked_out made_branch applied : Text → Call
  pushed : Pusher → (branch : Text) → Call
  opened : (title body head base : Text) → Call
  edited : (number : ℕ) (body : Text) → Call
  labelled : (number : ℕ) (label : Text) → Call
  assigned : (number : ℕ) (login : Text) → Call

pub record Settings : Type 0 where
  pub bot_login : Text
  pub bot_email : Text
  pub email : Text
  pub labels : List Text
  pub prow_assignments : Bool
  pub allow_all : Bool
  pub only_org_members : Bool
  pub issue_on_conflict : Bool
  pub label_prefix : Text

-- The arguments of handle.
pub record Pick : Type 0 where
  pub author : Text
  pub requestor : Text
  pub comment : Option Comment
  pub org : Text
  pub repo : Text
  pub target_branch : Text
  pub base_branch : Text
  pub chain_branches : List Text
  pub title : Text
  pub body : Text
  pub number : ℕ
  pub labels : List Text

-- GitHub, git in the clone, the file system, and the text of a cherry-pick's body.
pub record Host (W E : Type 0) : Type 0 where
  pub ensure_fork : (user org repo : Text) → Exec W E Text
  pub is_forbidden : E → Bool
  pub create_comment : (org repo : Text) → ℕ → Option Comment → Reply → Exec W E (Unit {0})
  pub create_issue : (org repo title : Text) → (assignees : List Text) → Exec W E ℕ
  pub get_patch : (org repo : Text) → ℕ → Exec W E Text
  pub write_file : (path content : Text) → Exec W E (Unit {0})
  pub list_heads : (org repo : Text) → Exec W E (List (Text × Text))
  pub get_issue_labels : (org repo : Text) → ℕ → Exec W E (List Text)
  pub create_pull_request : (org repo title body head base : Text) → Exec W E ℕ
  pub get_pull_request : (org repo : Text) → ℕ → Exec W E (Unit {0})
  pub edit_body : (org repo : Text) → ℕ → (body : Text) → Exec W E (Unit {0})
  pub add_label : (org repo : Text) → ℕ → Text → Exec W E (Unit {0})
  pub assign_issue : (org repo : Text) → ℕ → Text → Exec W E (Unit {0})
  pub client_for : (org repo : Text) → Exec W E (Unit {0})
  pub clean : Exec W E (Unit {0})
  pub checkout : Text → Exec W E (Unit {0})
  pub config : (key value : Text) → Exec W E (Unit {0})
  pub branch_exists : Text → W → Bool
  pub checkout_new_branch : Text → Exec W E (Unit {0})
  pub am : (path : Text) → Exec W E (Unit {0})
  pub push_to_named_fork : (fork branch : Text) → Exec W E (Unit {0})
  pub push_to_central : (branch : Text) → Exec W E (Unit {0})
  pub note_matches : (body : Text) → List NoteMatch
  pub create_cherrypick_body : ℕ → (requestor note : Text) → (chain kinds : List Text) → Text

module _ {W E : Type 0} (host : Host W E) (settings : Settings) where
  abbrev pub Action : Type 0 → Type 0
  Action A = Exec (Trace W Call) (List E) A

  -- The error of a call, with a text, as the only one.
  abbrev pub one : E → List E
  one e = e ∷ []

  abbrev pub ask : {A : Type 0} → Exec W E A → Action A
  ask m = wrap one (observe m)

  abbrev pub do_call : {A : Type 0} → Call → Exec W E A → Action A
  do_call c m = wrap one (perform c m)

  unfoldable pub create_comment : Pick → Reply → Action (Unit {0})
  create_comment p reply =
      do_call (commented p.number p.comment reply)
        (host.create_comment p.org p.repo p.number p.comment reply)

  unfoldable pub create_issue : Pick → (title : Text) → Action (Unit {0})
  create_issue p title =
      handling
        (do_call (issued title (p.requestor ∷ []))
          (host.create_issue p.org p.repo title (p.requestor ∷ [])))
        (λ e. create_comment p issue_failed) λ number. create_comment p (issue_created number)

  unfoldable pub get_pusher_and_org : Pick → Action (Pusher × Text)
  get_pusher_and_org p =
      handling (observe (host.ensure_fork settings.bot_login p.org p.repo))
        (λ e. if host.is_forbidden e then pure (central_pusher, p.org) else raise (one e))
        λ fork. pure (fork_pusher fork, settings.bot_login)

  unfoldable pub get_patch : Pick → Action Text
  get_patch p = do
    let path = patch_path p.org p.repo p.number p.target_branch
    patch ← ask (host.get_patch p.org p.repo p.number)
    do_call (wrote path) (host.write_file path patch)
    pure path

  unfoldable pub push : Pusher → (branch : Text) → Exec W E (Unit {0})
  push central_pusher branch = host.push_to_central branch
  push (fork_pusher fork) branch = host.push_to_named_fork fork branch

  -- utilerrors.NewAggregate over two errors that may be nil.
  abbrev pub aggregate :
      Result (List E) (Unit {0}) → Result (List E) (Unit {0}) → Result (List E) (Unit {0})
  aggregate (ok _) r = r
  aggregate (err es) (ok _) = err es
  aggregate (err es) (err fs) = err (es ++ fs)

  -- Both are run.
  abbrev pub both : Action (Unit {0}) → Action (Unit {0}) → Action (Unit {0})
  both m n s = let (r, t) = m s in let (q, u) = n t in (aggregate r q, u)

  abbrev pub failing_with : List E → Action (Unit {0}) → Action (Unit {0})
  failing_with es m = both (raise es) m
