-- ===== src/OwnersAliases/Examples.antt =====
-- A team, a repository's aliases and two pull requests, and the theorems on the bumper at them.
use ci_infra_gardener.Prelude.{
  ℕ, ◌≡◌, refl, ◌||◌, none, some, List, [], ◌∷◌, Text, codes, ◌==◌, any, keep, contains, Trace,
  Result, ok, split_byte,
}
use ci_infra_gardener.Prelude.Sets.{lookup, put, delete, difference}
use ci_infra_gardener.Github.{PullRequest, Repo, open_state}
use ci_infra_gardener.OrgConfig.{Teams, team, no_teams, add_team}
use ci_infra_gardener.OwnersAliases.Aliases.{OrgAliases, get_members, add_members_from_teams}
use ci_infra_gardener.OwnersAliases.Aliases.Members.{is_member, in_team, is_member-add_teams}
use ci_infra_gardener.OwnersAliases.Changes.{Change, compare_alias, apply_change}
use ci_infra_gardener.OwnersAliases.Changes.Converging.{compare_alias_converges}
use ci_infra_gardener.OwnersAliases.Options.{
  PrOptions, PrConfig, resolve_body, build_pr_config, Orgs, remove_repo, remove_excluded_repos,
}
use ci_infra_gardener.OwnersAliases.PullRequests.{
  PrClient, PrCall, of_branch, into_default, into_others, close_all, keep_first, find_or_create_pr,
  IsSettled, find_or_create_pr_lem,
}
use ci_infra_gardener.OwnersAliases.Writing.{Workspace, Call, deep_copy_yaml, write_changes}

abbrev same_login : Text → Text
same_login login = login

abbrev some_teams : Teams
some_teams =
    add_team (codes "core") (team (codes "ann" ∷ []) (codes "bob" ∷ []) [] none no_teams) no_teams

is_member-add_teams_example :
    is_member (add_members_from_teams same_login [] some_teams []) (codes "core") (codes "bob") ≡ (
      is_member [] (codes "core") (codes "bob")
      || in_team same_login [] some_teams (codes "core") (codes "bob"))
is_member-add_teams_example =
    is_member-add_teams same_login [] some_teams [] (codes "core") (codes "bob")

abbrev local_members : List Text
local_members = codes "ann" ∷ codes "bob" ∷ []

abbrev file_members : List Text
file_members = codes "ann" ∷ codes "eve" ∷ []

abbrev local_aliases : OrgAliases
local_aliases = (codes "core", local_members) ∷ []

abbrev bump : Change
bump = record { add = codes "bob" ∷ []; remove = codes "eve" ∷ [] }

knows : get_members local_aliases (codes "core") ≡ some local_members
unfolding get_members lookup ◌==◌
knows = refl

differs : compare_alias local_aliases (codes "core") file_members ≡ some bump
unfolding compare_alias get_members lookup difference keep contains any ◌==◌
differs = refl

compare_alias_converges_example :
    contains (apply_change bump file_members) (codes "bob") ≡ contains local_members (codes "bob")
compare_alias_converges_example =
    compare_alias_converges local_aliases (codes "core") file_members local_members file_members
      bump knows differs (λ y. refl) (codes "bob")

abbrev some_options : PrOptions
some_options = record {
  pr_branch = codes "bump";
  pr_title = codes "Bump";
  commit_title = codes "Bump";
  commit_body = [];
  commit_body_file = [];
  pr_body = [];
  pr_body_file = codes "body.md";
}

abbrev some_config : PrConfig
some_config = record {
  branch = codes "bump";
  commit_title = codes "Bump";
  commit_body = codes "default";
  pr_title = codes "Bump";
  pr_body = codes "content";
}

abbrev read_file : Text → Result Text Text
read_file path = ok (codes "content")

builds : build_pr_config read_file (codes "default") (codes "pr") some_options ≡ ok some_config
unfolding build_pr_config resolve_body ◌==◌
builds = refl

abbrev some_orgs : Orgs ℕ
some_orgs = (codes "o", (codes "r", 1) ∷ (codes "s", 2) ∷ []) ∷ []

abbrev without_r : Orgs ℕ
without_r = (codes "o", (codes "s", 2) ∷ []) ∷ []

removes : remove_excluded_repos some_orgs (codes "o/r" ∷ []) ≡ some without_r
unfolding remove_excluded_repos remove_repo lookup put delete keep split_byte ◌==◌
removes = refl

abbrev some_repo : Repo
some_repo = record { owner = codes "o"; name = codes "r"; full_name = codes "o/r" }

abbrev pull_request_to : ℕ → Text → PullRequest
pull_request_to number base = record {
  number = number;
  state = open_state;
  head_ref = codes "bump";
  head_repo = some_repo;
  base_ref = base;
  base_repo = some_repo;
  html_url = [];
}

abbrev some_prs : List PullRequest
some_prs = pull_request_to 3 (codes "old") ∷ pull_request_to 4 (codes "main") ∷ []

abbrev fake_client : PrClient (Unit {0}) Text
fake_client = record {
  get_default_branch = λ org repo w. (ok (codes "main"), w);
  get_pull_requests = λ org repo w. (ok some_prs, w);
  create_pull_request = λ org repo title body head base w. (ok 5, w);
  close_pull_request = λ org repo number w. (ok tt, w);
}

abbrev start_pr : Trace (Unit {0}) PrCall
start_pr = record { world = tt; calls = [] }

abbrev settled : Trace (Unit {0}) PrCall
settled = (find_or_create_pr fake_client (codes "o") (codes "r") some_config start_pr).1

settles :
    find_or_create_pr fake_client (codes "o") (codes "r") some_config start_pr ≡ (ok 4, settled)
unfolding find_or_create_pr of_branch into_default into_others keep_first close_all keep ◌==◌
settles = refl

find_or_create_pr_lem_example :
    IsSettled fake_client (codes "o") (codes "r") some_config start_pr settled 4
find_or_create_pr_lem_example =
    find_or_create_pr_lem fake_client (codes "o") (codes "r") some_config start_pr settled 4 settles

-- A workspace whose file lists the members above.
abbrev fake_workspace : Workspace (Unit {0}) Text
fake_workspace = record {
  client_for = λ org repo w. (ok tt, w);
  checkout = λ ref w. (ok tt, w);
  checkout_new_branch = λ branch w. (ok tt, w);
  commit = λ title body w. (ok tt, w);
  client_from_dir = λ org repo w. (ok tt, w);
  push_to_central = λ branch force w. (ok tt, w);
  clean = λ w. (ok tt, w);
  read_file = λ path w. (ok (codes "aliases"), w);
  write_file = λ path content w. (ok tt, w);
  unmarshal = λ raw. ok ((codes "core", file_members) ∷ []);
  marshal = λ aliases. ok (codes "marshalled");
  merge = λ original modified raw. ok modified;
  get_file = λ org repo path w. (ok (codes "aliases"), w);
  parse_aliases_config = λ raw. ok ((codes "core", file_members) ∷ []);
}

abbrev start : Trace (Unit {0}) Call
start = record { world = tt; calls = [] }

abbrev written : Trace (Unit {0}) Call
written =
    (write_changes fake_workspace (codes "OWNERS_ALIASES") ((codes "core", bump) ∷ []) start).1

writes :
    write_changes fake_workspace (codes "OWNERS_ALIASES") ((codes "core", bump) ∷ []) start
    ≡ (ok tt, written)
unfolding write_changes deep_copy_yaml
writes = refl
