-- ===== src/OwnersAliases/Aliases.antt =====
-- prow/cmd/owners-aliases-bumper/aliases.go: the aliases that the teams of an organization give rise to.
-- github.NormLogin is the parameter `norm_login`.
pub mod Members
use ci_infra_gardener.Prelude.{Option, none, some, List, [], ◌∷◌, ◌++◌, Text, codes}
use ci_infra_gardener.Prelude.Sets.{insert, lookup, put}
use ci_infra_gardener.OrgConfig.{Team, Teams, team, no_teams, add_team}

-- From an alias to the set of its members.
abbrev pub OrgAliases : Type 0
OrgAliases = List (Text × List Text)

-- From an organization to its aliases.
abbrev pub FullOrgAliases : Type 0
FullOrgAliases = List (Text × OrgAliases)

unfoldable pub add_member : OrgAliases → (alias_name member : Text) → OrgAliases
add_member aliases alias_name member = elim (lookup alias_name aliases) [
  | none ↦ put alias_name (insert member []) aliases
  | some alias_members ↦ put alias_name (insert member alias_members) aliases
]

unfoldable pub get_members : OrgAliases → Text → Option (List Text)
get_members aliases alias_name = lookup alias_name aliases

-- The aliases of an organization, which is added if it is not known.
unfoldable pub get_config : FullOrgAliases → Text → OrgAliases × FullOrgAliases
get_config f org = elim (lookup org f) [ some aliases ↦ (aliases, f) | none ↦ ([], put org [] f) ]

module _ (norm_login : Text → Text) where
  unfoldable pub add_members : OrgAliases → (alias_name : Text) → List Text → OrgAliases
  add_members aliases alias_name [] = aliases
  add_members aliases alias_name (member ∷ members) =
      add_members (add_member aliases alias_name (norm_login member)) alias_name members

  unfoldable pub add_members_from_teams : OrgAliases → Teams → (alias_prefix : Text) → OrgAliases
  add_members_from_teams aliases no_teams alias_prefix = aliases
  add_members_from_teams aliases
        (add_team team_name (team members maintainers previously privacy children) teams)
        alias_prefix =
      let alias_name = norm_login (alias_prefix ++ team_name) in
      let added = add_members (add_members aliases alias_name members) alias_name maintainers in
      add_members_from_teams
        (add_members_from_teams added children (alias_prefix ++ (team_name ++ codes "/"))) teams
        alias_prefix
