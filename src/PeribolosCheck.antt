-- ===== src/PeribolosCheck.antt =====
-- prow/cmd/peribolos-checkconfig/main.go: a Peribolos configuration is checked before it is applied. An
-- aggregate of errors is the list of them, empty for nil. github.NormLogin is the parameter `norm_login`.
pub mod Teams
pub mod Repos
pub mod Walking
pub mod Apart
pub mod Logins
pub mod Checking
mod Examples
use ci_infra_gardener.Prelude.{
  ℕ, false, not, List, [], ◌∷◌, ◌++◌, Text, keep, length, contains, map, ltb, if◌then◌else◌,
}
use ci_infra_gardener.Prelude.Sets.{insert_all, intersection, difference}
use ci_infra_gardener.OrgConfig.{OrgConfig, Privacy}
use ci_infra_gardener.PeribolosCheck.Teams.{
  normalize, new_set, WalkState, initial_state, walk_teams,
}
use ci_infra_gardener.PeribolosCheck.Repos.{RepoError, validate_repos}

-- minAdmins is at least 2 where options are parsed.
pub record Options : Type 0 where
  pub min_admins : ℕ
  pub required_admins : List Text

pub data CheckError : Type 0 where
  too_few_admins : (found : ℕ) → CheckError
  missing_admins both_roles outsiders duplicate_team_names : List Text → CheckError
  nested_not_closed : List (Text × Privacy) → CheckError
  dual_role_teams : List (Text × List Text) → CheckError
  repos : List RepoError → CheckError

-- `if len(xs) > 0 { errs = append(errs, ...) }`
abbrev pub report_if_any : {A : Type 0} → (List A → CheckError) → List A → List CheckError
report_if_any f [] = []
report_if_any f (x ∷ xs) = f (x ∷ xs) ∷ []

module _ (norm_login : Text → Text) where
  unfoldable pub check_admins : Options → OrgConfig → List CheckError
  check_admins opt org =
      let want_admins = new_set org.admins in
      let missing = keep (λ r. not (contains want_admins r)) opt.required_admins in
      (if ltb (length want_admins) opt.min_admins
        then too_few_admins (length want_admins) ∷ []
        else [])
      ++ report_if_any missing_admins missing

  unfoldable pub check_members : OrgConfig → WalkState → List CheckError
  check_members org state =
      let want_members = normalize norm_login (new_set org.members) in
      let norm_admins = normalize norm_login (new_set org.admins) in
      report_if_any both_roles (intersection norm_admins want_members)
      ++ report_if_any outsiders
          (difference (normalize norm_login state.members) (insert_all want_members norm_admins))

  unfoldable pub check_teams : WalkState → List CheckError
  check_teams state =
      report_if_any duplicate_team_names state.duplicate_names
      ++ (report_if_any nested_not_closed state.nested_not_closed
          ++ report_if_any dual_role_teams state.dual_role_teams)

  unfoldable pub check_org : Options → OrgConfig → List CheckError
  unfolding check_admins check_members check_teams
  check_org opt org =
      let state = walk_teams norm_login org.teams false initial_state in
      check_admins opt org
      ++ (check_members org state
          ++ (check_teams state ++ report_if_any repos (validate_repos org.repos)))
