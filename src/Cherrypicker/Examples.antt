-- ===== src/Cherrypicker/Examples.antt =====
-- Comments and pull requests that the cherrypicker is told of, and the theorems at them.
use ci_infra_gardener.Prelude.{
  suc, ◌≡◌, inl, refl, true, false, ◌&&◌, none, some, [], ◌∷◌, ◌++◌, Text, codes, ◌==◌, All,
  replicate, join, contains, any, keep, cut_prefix, has_prefix, trim_prefix, replace_byte, decimal,
  digits_from, ok, err, Trace,
}
use ci_infra_gardener.Prelude.Sets.{put, insert, sort, insert_sorted}
use ci_infra_gardener.Cherrypicker.Commands.{
  span, last_in_line, match_group, match_argument, match_command, find_commands, split_spaces,
  is_word, fields, add_commands, parse_comment,
}
use ci_infra_gardener.Cherrypicker.Commands.Reading.{
  IsName, parse_comment-join, parse_comment-blanks,
}
use ci_infra_gardener.Cherrypicker.Texts.{
  remove_first, indicator, omit_base_branch_from_title, title_for, normalize, kind_label_prefix,
  kind_set, kind_labels_from_issue_labels, release_notes,
}
use ci_infra_gardener.Cherrypicker.Texts.Titles.{title_for-title_for, contains-kind_labels}
use ci_infra_gardener.Cherrypicker.Picking.{
  fork_pusher, Comment, created, Call, commented, cloned, cleaned, wrote, checked_out, made_branch,
  applied, pushed, opened, edited, labelled, assigned, Settings, Pick, Host, get_pusher_and_org,
  create_comment, get_patch, push,
}
use ci_infra_gardener.Cherrypicker.Picking.Steps.{
  handle, body_for, edit_body, update_body, add_labels, copied_labels, assign, kinds_of,
  finish_pull_request, create_pull_request, open_pull_request, push_branch, apply_patch,
  existing_pick, pick_to, pick_patch, fetch_and_pick, pick_in_clone, clone_and_pick,
}
use ci_infra_gardener.Cherrypicker.Picking.Calling.{Adds}
use ci_infra_gardener.Cherrypicker.Picking.Conflicts.{
  IsAllowed, IsReport, handle-IsAllowed, handle-IsReport,
}
use ci_infra_gardener.Cherrypicker.Requests.{
  CommentEvent, PullRequest, PullRequestEvent, closed, Directory, list_trusted_users,
  handle_commands,
}
use ci_infra_gardener.Cherrypicker.Requests.Merged.{handle_pull_request}
use ci_infra_gardener.Cherrypicker.Requests.Trusting.{
  IsComment, IsGranted, handle_pull_request-IsGranted,
}
use ci_infra_gardener.Cherrypicker.Requests.Refusing.{handle_commands-refused}

abbrev settings : Settings
settings = record {
  bot_login = codes "bot";
  bot_email = codes "bot@x";
  email = [];
  labels = codes "cherry" ∷ [];
  prow_assignments = true;
  allow_all = false;
  only_org_members = true;
  issue_on_conflict = false;
  label_prefix = codes "cherrypick/";
}

abbrev comment : Comment
comment = record { author = codes "u"; body = codes "/cherrypick b" }

abbrev some_pick : Pick
some_pick = record {
  author = codes "a";
  requestor = codes "u";
  comment = some comment;
  org = codes "o";
  repo = codes "r";
  target_branch = codes "b";
  base_branch = codes "m";
  chain_branches = [];
  title = codes "t";
  body = [];
  number = 7;
  labels = codes "kind/bug" ∷ codes "size/S" ∷ [];
}

abbrev host : Host (Unit {0}) Text
host = record {
  ensure_fork = λ user org repo w. (ok (codes "f"), w);
  is_forbidden = λ e. false;
  create_comment = λ org repo number comment reply w. (ok tt, w);
  create_issue = λ org repo title assignees w. (ok 1, w);
  get_patch = λ org repo number w. (ok (codes "diff"), w);
  write_file = λ path content w. (ok tt, w);
  list_heads = λ org repo w. (ok [], w);
  get_issue_labels = λ org repo number w. (ok (codes "kind/bug" ∷ []), w);
  create_pull_request = λ org repo title body head base w. (ok 8, w);
  get_pull_request = λ org repo number w. (ok tt, w);
  edit_body = λ org repo number body w. (ok tt, w);
  add_label = λ org repo number label w. (ok tt, w);
  assign_issue = λ org repo number login w. (ok tt, w);
  client_for = λ org repo w. (ok tt, w);
  clean = λ w. (ok tt, w);
  checkout = λ branch w. (ok tt, w);
  config = λ key value w. (ok tt, w);
  branch_exists = λ branch w. false;
  checkout_new_branch = λ branch w. (ok tt, w);
  am = λ path w. (ok tt, w);
  push_to_named_fork = λ fork branch w. (ok tt, w);
  push_to_central = λ branch w. (ok tt, w);
  note_matches = λ body. [];
  create_cherrypick_body = λ number requestor note chain kinds. join kinds (codes " ");
}

abbrev conflicting : Host (Unit {0}) Text
conflicting = record host { am = λ path w. (err (codes "conflict"), w) }

abbrev start : Trace (Unit {0}) Call
start = record { world = tt; calls = [] }

-- All calls of a cherry-pick that succeeds, the latest first.
pick_lem :
    (handle host settings some_pick start).1.calls
    ≡ cleaned
      ∷ assigned 8 (codes "u")
      ∷ labelled 8 (codes "kind/bug")
      ∷ labelled 8 (codes "cherry")
      ∷ edited 8 (codes "bug")
      ∷ commented 7 (some comment) (created 8)
      ∷ opened (codes "[b] t") (codes "bug") (codes "bot:cherry-pick-7-to-b") (codes "b")
      ∷ pushed (fork_pusher (codes "f")) (codes "cherry-pick-7-to-b")
      ∷ applied (codes "/tmp/o_r_7_b.patch")
      ∷ made_branch (codes "cherry-pick-7-to-b")
      ∷ wrote (codes "/tmp/o_r_7_b.patch")
      ∷ checked_out (codes "b")
      ∷ cloned
      ∷ []
unfolding handle get_pusher_and_org clone_and_pick pick_in_clone fetch_and_pick get_patch pick_patch
    existing_pick pick_to apply_patch push_branch push open_pull_request kinds_of
    create_pull_request finish_pull_request update_body edit_body body_for add_labels copied_labels
    assign create_comment title_for omit_base_branch_from_title remove_first normalize replace_byte
    decimal digits_from kind_labels_from_issue_labels kind_set release_notes has_prefix trim_prefix
    cut_prefix insert sort insert_sorted contains any join ◌==◌
pick_lem = refl

-- A command for two chains, and one across an empty line.
commands_lem :
    (parse_comment (codes "x\n/cherrypick a b\n/cherry-pick  c")
      ≡ some ((codes "a", codes "b" ∷ []) ∷ (codes "c", []) ∷ []))
    × (parse_comment (codes "/cherrypick\n\nplease") ≡ some ((codes "please", []) ∷ []))
unfolding parse_comment find_commands add_commands match_command match_argument match_group span
    last_in_line fields split_spaces cut_prefix put keep ◌==◌
commands_lem = (refl, refl)

names : All IsName (codes "a" ∷ codes "b" ∷ [])
unfolding any
names = ((refl, refl), ((refl, refl), tt))

parse_comment-join_example :
    parse_comment (codes "/cherrypick " ++ join (codes "a" ∷ codes "b" ∷ []) (codes " "))
    ≡ some ((codes "a", codes "b" ∷ []) ∷ [])
parse_comment-join_example = parse_comment-join (codes "a") (codes "b" ∷ []) names

parse_comment-blanks_example :
    parse_comment (codes "/cherrypick" ++ replicate (suc (suc 1)) 32) ≡ none
parse_comment-blanks_example = parse_comment-blanks 1

title_for-title_for_example :
    title_for (title_for (codes "t") (codes "m") (codes "b")) (codes "b") (codes "c")
    ≡ indicator (codes "c") ++ omit_base_branch_from_title (codes "t") (codes "m")
title_for-title_for_example =
    title_for-title_for (codes "t") (codes "m") (codes "b") (codes "c") refl

contains-kind_labels_example :
    contains (kind_labels_from_issue_labels some_pick.labels) (codes "bug")
    ≡ (is_word (codes "bug") && contains some_pick.labels (kind_label_prefix ++ codes "bug"))
contains-kind_labels_example = contains-kind_labels some_pick.labels (codes "bug")

handle-IsAllowed_example : Adds (IsAllowed settings some_pick) (handle host settings some_pick)
handle-IsAllowed_example = handle-IsAllowed host settings some_pick

handle-IsReport_example : Adds IsReport (handle conflicting settings some_pick)
handle-IsReport_example =
    handle-IsReport conflicting settings some_pick (λ path w. (codes "conflict", refl))

abbrev directory : Directory (Unit {0}) Text
directory = record {
  get_pull_request = λ org repo number w. (err (codes "gone"), w);
  list_issue_comments = λ org repo number w. (ok (comment ∷ []), w);
  is_member = λ org login w. (ok false, w);
  is_collaborator = λ org repo login w. (ok false, w);
  list_org_members = λ org w. (ok (codes "u" ∷ []), w);
  list_collaborators = λ org repo w. (ok [], w);
}

abbrev some_pr : PullRequest
some_pr = record {
  author = codes "a";
  base_ref = codes "m";
  title = codes "t";
  body = [];
  labels = [];
  merged = true;
  has_merge_sha = true;
}

abbrev some_event : PullRequestEvent
some_event = record {
  action = closed;
  org = codes "o";
  repo = codes "r";
  number = 7;
  pull_request = some_pr;
}

abbrev comment_event : CommentEvent
comment_event = record {
  is_pull_request = true;
  is_created = true;
  is_closed = true;
  org = codes "o";
  repo = codes "r";
  number = 7;
  comment = comment;
}

listed :
    (w : Unit {0})
    → (list_trusted_users host directory settings (codes "o") (codes "r") w).0 ≡ ok (codes "u" ∷ [])
unfolding list_trusted_users
listed w = refl

handle_pull_request-IsGranted_example :
    Adds
      (IsGranted host directory settings some_event (codes "u" ∷ []))
      (handle_pull_request host directory settings some_event)
handle_pull_request-IsGranted_example =
    handle_pull_request-IsGranted host directory settings some_event (codes "u" ∷ []) refl listed

handle_commands-refused_example : Adds IsComment (
    handle_commands host directory settings comment_event
      (record some_pr { merged = false })
      ((codes "b", []) ∷ []))
handle_commands-refused_example =
    handle_commands-refused host directory settings comment_event
      (record some_pr { merged = false }) ((codes "b", []) ∷ []) (inl refl)
