-- ===== src/Cherrypicker/Requests.antt =====
-- The events that the cherrypicker is told of: handleIssueComment and handlePullRequest of
-- prow/external-plugins/cherrypicker/server.go. A panic of parseComment is an error of its own. The order of
-- Go's maps is that of lists of entries, except where the code sorts the keys.
pub mod Merged
pub mod Asking
pub mod Trusting
pub mod Refusing
use ci_infra_gardener.Prelude.{
  ℕ, Bool, true, false, not, ◌&&◌, ◌||◌, Option, none, some, List, [], ◌∷◌, ◌++◌, Text, codes, ◌==◌,
  contains, has_prefix, trim_prefix, map, is_some, or_else, if◌then◌else◌, Exec, Result, ok, err,
  Trace, pure, raise, wrap, attempt, perform, observe, ◌>>=◌, ◌>>◌,
}
use ci_infra_gardener.Prelude.Sets.{lookup, put, delete, sort}
use ci_infra_gardener.Cherrypicker.Commands.{Commands, parse_comment}
use ci_infra_gardener.Cherrypicker.Picking.{
  Comment, Reply, on_base_branch, not_trusted, later, unmerged, base_branch_label, Call, commented,
  Settings, Pick, Host,
}
use ci_infra_gardener.Cherrypicker.Picking.Steps.{handle}

-- The fields of a pull request that are read.
pub record PullRequest : Type 0 where
  pub author : Text
  pub base_ref : Text
  pub title : Text
  pub body : Text
  pub labels : List Text
  pub merged : Bool
  pub has_merge_sha : Bool

pub record CommentEvent : Type 0 where
  pub is_pull_request : Bool
  pub is_created : Bool
  pub is_closed : Bool
  pub org : Text
  pub repo : Text
  pub number : ℕ
  pub comment : Comment

pub data Action : Type 0 where
  closed labeled opened other_action : Action

pub record PullRequestEvent : Type 0 where
  pub action : Action
  pub org : Text
  pub repo : Text
  pub number : ℕ
  pub pull_request : PullRequest

-- What is asked of GitHub besides.
pub record Directory (W E : Type 0) : Type 0 where
  pub get_pull_request : (org repo : Text) → ℕ → Exec W E PullRequest
  pub list_issue_comments : (org repo : Text) → ℕ → Exec W E (List Comment)
  pub is_member : (org login : Text) → Exec W E Bool
  pub is_collaborator : (org repo login : Text) → Exec W E Bool
  pub list_org_members : (org : Text) → Exec W E (List Text)
  pub list_collaborators : (org repo : Text) → Exec W E (List Text)

pub data RequestError (E : Type 0) : Type 0 where
  panicked : RequestError E
  failed : List E → RequestError E

abbrev pub keys : {V : Type 0} → List (Text × V) → List Text
keys entries = map (λ entry. entry.0) entries

abbrev pub is_nil : {A : Type 0} → List A → Bool
is_nil [] = true
is_nil (x ∷ xs) = false

-- requestor -> target branch -> comment, which is missing for a label
abbrev pub Requests : Type 0
Requests = List (Text × List (Text × Option Comment))

unfoldable pub put_request : (requestor target : Text) → Option Comment → Requests → Requests
put_request requestor target c requests =
    put requestor (put target c (or_else (lookup requestor requests) [])) requests

-- The inner loop over the commands of one comment, with the chains.
unfoldable pub gather_commands : Comment → Commands → Requests × Commands → Requests × Commands
unfolding put_request
gather_commands c [] gathered = gathered
gather_commands c ((target, chain) ∷ commands) (requests, chains) = gather_commands c commands (
  put_request c.author target (some c) requests,
  if is_nil chain then chains else put target chain chains,
)

unfoldable pub gather_comments : List Comment → Requests × Commands → Option (Requests × Commands)
unfolding gather_commands
gather_comments [] gathered = some gathered
gather_comments (c ∷ cs) gathered = elim (parse_comment c.body) [
  | none ↦ none
  | some commands ↦ gather_comments cs (gather_commands c commands gathered)
]

-- The labels with the prefix, as requests of the author.
unfoldable pub gather_labels : (prefix author : Text) → List Text → Requests → Requests
unfolding put_request
gather_labels prefix author [] requests = requests
gather_labels prefix author (label ∷ labels) requests =
    if has_prefix label prefix
    then gather_labels prefix author labels
        (put_request author (trim_prefix label prefix) none requests)
    else gather_labels prefix author labels requests

unfoldable pub has_label : (prefix : Text) → List Text → Bool
has_label prefix [] = false
has_label prefix (label ∷ labels) = has_prefix label prefix || has_label prefix labels

-- The requests of those who are trusted.
unfoldable pub of_trusted : (logins : List Text) → Requests → Requests
of_trusted logins [] = []
of_trusted logins ((requestor, branches) ∷ requests) =
    let rest = of_trusted logins requests in
    if contains logins requestor then (requestor, branches) ∷ rest else rest

pub record Request : Type 0 where
  pub requestor : Text
  pub target_branch : Text
  pub comment : Option Comment

abbrev pub requests_of : Text → List (Text × Option Comment) → List Request
requests_of requestor branches =
    map (λ entry. record { requestor = requestor; target_branch = entry.0; comment = entry.1 })
      branches

unfoldable pub flatten : Requests → List Request
flatten [] = []
flatten ((requestor, branches) ∷ requests) = requests_of requestor branches ++ flatten requests

module _ {W E : Type 0} (host : Host W E) (directory : Directory W E) (settings : Settings) where
  abbrev pub Handler : Type 0 → Type 0
  Handler A = Exec (Trace W Call) (RequestError E) A

  abbrev pub one_failed : E → RequestError E
  one_failed e = failed (e ∷ [])

  abbrev pub ask : {A : Type 0} → Exec W E A → Handler A
  ask m = wrap one_failed (observe m)

  abbrev pub reply : (org repo : Text) → ℕ → Option Comment → Reply → Handler (Unit {0})
  reply org repo number c r =
      wrap one_failed (perform (commented number c r) (host.create_comment org repo number c r))

  unfoldable pub is_trusted_user : (org repo login : Text) → Exec W E Bool
  is_trusted_user org repo login =
      if settings.only_org_members
      then directory.is_member org login
      else directory.is_collaborator org repo login

  unfoldable pub list_trusted_users : (org repo : Text) → Exec W E (List Text)
  list_trusted_users org repo =
      if settings.only_org_members
      then directory.list_org_members org
      else directory.list_collaborators org repo

  abbrev pub errors_of : Result (List E) (Unit {0}) → List E
  errors_of (ok _) = []
  errors_of (err es) = es

  -- A failure of one cherry-pick does not keep the others from being tried.
  abbrev pub collect : Exec (Trace W Call) (List E) (Unit {0}) → Handler (List E) → Handler (List E)
  collect m rest = do result ← attempt m; es ← rest; pure (errors_of result ++ es)

  abbrev pub aggregated : List E → Handler (Unit {0})
  aggregated [] s = (ok tt, s)
  aggregated (e ∷ es) s = (err (failed (e ∷ es)), s)

  module _ (event : CommentEvent) (pr : PullRequest) where
    abbrev pub comment_pick : (commands : Commands) → (target : Text) → Pick
    comment_pick commands target = record {
      author = pr.author;
      requestor = event.comment.author;
      comment = some event.comment;
      org = event.org;
      repo = event.repo;
      target_branch = target;
      base_branch = pr.base_ref;
      chain_branches = or_else (lookup target commands) [];
      title = pr.title;
      body = pr.body;
      number = event.number;
      labels = pr.labels;
    }

    unfoldable pub handle_targets : Commands → List Text → Handler (List E)
    handle_targets commands [] = pure []
    handle_targets commands (target ∷ targets) =
        collect (handle host settings (comment_pick commands target))
          (handle_targets commands targets)

    abbrev pub answer : Reply → Handler (Unit {0})
    answer r = reply event.org event.repo event.number (some event.comment) r

    -- For a user who may request cherry-picks, when everyone or that user may.
    unfoldable pub if_trusted : Handler (Unit {0}) → Handler (Unit {0})
    unfolding is_trusted_user
    if_trusted m = if settings.allow_all then m else (do
      trusted ← ask (is_trusted_user event.org event.repo event.comment.author)
      if trusted then m else answer not_trusted)

    -- A warning about the base branch, whose failure is only logged.
    unfoldable pub warn_invalid : Bool → Handler (Unit {0})
    warn_invalid has_invalid_branch =
        if has_invalid_branch then (do attempt (answer on_base_branch); pure tt) else pure tt

    unfoldable pub pick_targets : (has_invalid_branch : Bool) → Commands → Handler (Unit {0})
    unfolding handle_targets warn_invalid
    pick_targets has_invalid_branch commands = do
      warn_invalid has_invalid_branch
      es ← handle_targets commands (sort (keys commands))
      aggregated es

    unfoldable pub handle_commands : Commands → Handler (Unit {0})
    unfolding if_trusted pick_targets
    handle_commands all =
        let has_invalid_branch = is_some (lookup pr.base_ref all) in
        let commands = delete pr.base_ref all in
        if is_nil all
        then pure tt
        else if is_nil commands
        then answer on_base_branch
        else if not event.is_closed
        then if_trusted (answer (later (sort (keys commands)) has_invalid_branch))
        else if not pr.merged
        then answer unmerged
        else if_trusted (pick_targets has_invalid_branch commands)

  unfoldable pub parsed : Text → Handler Commands
  parsed body s =
      (elim (parse_comment body) [ none ↦ err panicked | some commands ↦ ok commands ], s)

  unfoldable pub handle_issue_comment : CommentEvent → Handler (Unit {0})
  unfolding parsed handle_commands
  handle_issue_comment event =
      if not event.is_pull_request || not event.is_created then pure tt else (do
        pr ← ask (directory.get_pull_request event.org event.repo event.number)
        commands ← parsed event.comment.body
        handle_commands event pr commands)
