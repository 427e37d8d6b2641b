-- ===== src/PeribolosCheck/Examples.antt =====
-- Two organizations, one of which has a team whose maintainer is no member.
use ci_infra_gardener.Prelude.{
  ◌≡◌, refl, ◌↔◌, true, none, some, List, [], ◌∷◌, Text, codes, ◌==◌, any, keep, contains,
}
use ci_infra_gardener.Prelude.Sets.{insert, insert_all, intersection, difference, lookup, put}
use ci_infra_gardener.OrgConfig.{OrgConfig, RepoConfig, secret, Teams, team, no_teams, add_team}
use ci_infra_gardener.PeribolosCheck.{
  Options, outsiders, nested_not_closed, check_admins, check_members, check_teams, check_org,
}
use ci_infra_gardener.PeribolosCheck.Teams.{
  normalize, add_users, visit_name, visit_names, visit_team, walk_teams,
}
use ci_infra_gardener.PeribolosCheck.Repos.{
  lower_byte, to_lower, find_duplicates, add_seen, duplicates_from, find_unarchives, validate_repos,
}
use ci_infra_gardener.PeribolosCheck.Checking.{IsValid, check_org_iff}

abbrev same_login : Text → Text
same_login login = login

abbrev two_admins : Options
two_admins = record { min_admins = 2; required_admins = codes "ann" ∷ [] }

abbrev inner : Teams
inner =
    add_team (codes "inner") (team (codes "ann" ∷ []) (codes "eve" ∷ []) [] (some secret) no_teams)
      no_teams

abbrev some_repos : List (Text × RepoConfig)
some_repos =
    (codes "docs", record { archived = none; previously = codes "Site" ∷ [] })
    ∷ (codes "web", record { archived = some true; previously = [] })
    ∷ []

abbrev some_org : OrgConfig
some_org = record {
  admins = codes "ann" ∷ codes "bob" ∷ [];
  members = codes "cat" ∷ [];
  teams = add_team (codes "outer") (team (codes "cat" ∷ []) [] [] none inner) no_teams;
  repos = some_repos;
}

finds_errors :
    check_org same_login two_admins some_org
    ≡ outsiders (codes "eve" ∷ []) ∷ nested_not_closed ((codes "inner", secret) ∷ []) ∷ []
unfolding check_org check_admins check_members check_teams walk_teams visit_team visit_names
    visit_name add_users normalize intersection difference insert insert_all keep contains any ◌==◌
    validate_repos duplicates_from find_duplicates add_seen find_unarchives to_lower lower_byte
    lookup put
finds_errors = refl

check_org_iff_example :
    (check_org same_login two_admins some_org ≡ []) ↔ IsValid same_login two_admins some_org
check_org_iff_example = check_org_iff same_login two_admins some_org
