-- ===== src/PeribolosCheck/Teams.antt =====
-- walkTeams of prow/cmd/peribolos-checkconfig/main.go and its state.
use ci_infra_gardener.Prelude.{
  Bool, true, false, ◌||◌, Option, some, List, [], ◌∷◌, ◌++◌, Text, contains, map, if◌then◌else◌,
}
use ci_infra_gardener.Prelude.Sets.{insert, insert_all, intersection}
use ci_infra_gardener.OrgConfig.{Privacy, secret, Teams, team, no_teams, add_team}

-- sets.New
abbrev pub new_set : List Text → List Text
new_set xs = insert_all xs []

unfoldable pub normalize : (norm_login : Text → Text) → List Text → List Text
normalize norm_login s = new_set (map norm_login s)

-- teamWalkState, with a team's name beside what is printed after it.
pub record WalkState : Type 0 where
  pub members : List Text
  pub names : List Text
  pub duplicate_names : List Text
  pub nested_not_closed : List (Text × Privacy)
  pub dual_role_teams : List (Text × List Text)

abbrev pub initial_state : WalkState
initial_state = record {
  members = [];
  names = [];
  duplicate_names = [];
  nested_not_closed = [];
  dual_role_teams = [];
}

abbrev pub has_teams : Teams → Bool
has_teams no_teams = false
has_teams (add_team name t teams) = true

unfoldable pub add_users : (team_members maintainers : List Text) → WalkState → WalkState
add_users team_members maintainers s = record s {
  members = insert_all maintainers (insert_all team_members s.members);
}

abbrev pub note_dual_role : Text → List Text → WalkState → WalkState
note_dual_role name [] s = s
note_dual_role name (user ∷ users) s = record s {
  dual_role_teams = s.dual_role_teams ++ (name, user ∷ users) ∷ [];
}

unfoldable pub visit_name : WalkState → Text → WalkState
visit_name s n =
    let duplicates = if contains s.names n then insert n s.duplicate_names else s.duplicate_names in
    record s { duplicate_names = duplicates; names = insert n s.names }

unfoldable pub visit_names : WalkState → List Text → WalkState
unfolding visit_name
visit_names s [] = s
visit_names s (n ∷ ns) = visit_names (visit_name s n) ns

abbrev pub note_privacy : Text → (is_nested : Bool) → Option Privacy → WalkState → WalkState
note_privacy name true (some secret) s = record s {
  nested_not_closed = s.nested_not_closed ++ (name, secret) ∷ [];
}
note_privacy name is_nested privacy s = s

module _ (norm_login : Text → Text) where
  -- One round of the loop, before the recursion into the children.
  unfoldable pub visit_team :
      Text
      → (team_members maintainers previously : List Text) → Option Privacy
      → (is_nested : Bool) → WalkState
      → WalkState
  unfolding add_users visit_names
  visit_team name team_members maintainers previously privacy is_nested s =
      let both =
        intersection (normalize norm_login (new_set team_members))
          (normalize norm_login (new_set maintainers)) in
      note_privacy name is_nested privacy (
        visit_names (note_dual_role name both (add_users team_members maintainers s))
          (name ∷ previously))

  unfoldable pub walk_teams : Teams → (parent_is_nested : Bool) → WalkState → WalkState
  unfolding visit_team
  walk_teams no_teams parent_is_nested s = s
  walk_teams (add_team name (team team_members maintainers previously privacy children) teams)
        parent_is_nested s =
      let is_nested = parent_is_nested || has_teams children in
      let visited = visit_team name team_members maintainers previously privacy is_nested s in
      walk_teams teams parent_is_nested (walk_teams children true visited)
