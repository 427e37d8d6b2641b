-- ===== src/PeribolosCheck/Walking/Trees.antt =====
-- What walkTeams of prow/cmd/peribolos-checkconfig/main.go finds in a whole tree of teams.
use ci_infra_gardener.Prelude.{
  ◌+◌, ◌≡◌, ap, ◌∙◌, Bool, true, not, ◌&&◌, ◌||◌, List, [], ◌∷◌, ◌++◌, arith, Text, contains, leb,
}
use ci_infra_gardener.Prelude.Sets.{contains-cons, contains-nil, contains-append}
use ci_infra_gardener.OrgConfig.{Teams, team, no_teams, add_team}
use ci_infra_gardener.PeribolosCheck.Teams.{WalkState, has_teams, walk_teams}
use ci_infra_gardener.PeribolosCheck.Walking.{
  all_users, all_names, count, count-append, bit, all_closed, is_nil, is_closed, single_roles,
}
use ci_infra_gardener.PeribolosCheck.Walking.Rounds.{
  visited, members-visit_team, names-visit_team, duplicates-visit_team, nested-visit_team,
  dual-visit_team,
}

contains-count : (xs : List Text) (y : Text) → contains xs y ≡ leb 1 (count xs y)
contains-count [] y = ground (arith, contains-nil y)
contains-count (x ∷ xs) y = ground (arith, contains-cons x xs y, contains-count xs y)

&&-regroup : (a b c d : Bool) → (((a && b) && c) && d) ≡ (a && (b && (c && d)))
&&-regroup a b c d = ground arith

module _ (norm_login : Text → Text) where
  pub members-walk_teams :
      (teams : Teams) (nested : Bool) (s : WalkState) (y : Text)
      → contains (walk_teams norm_login teams nested s).members y
        ≡ (contains s.members y || contains (all_users teams) y)
  unfolding walk_teams
  members-walk_teams no_teams nested s y = ground (arith, contains-nil y)
  members-walk_teams (add_team name (team members maintainers previously privacy children) teams)
        nested s y =
      let is_nested = nested || has_teams children in
      let v = visited norm_login name members maintainers previously privacy is_nested s in
      let below = walk_teams norm_login children true v in
      ground (
        arith,
        members-visit_team norm_login name members maintainers previously privacy is_nested s y,
        members-walk_teams children true v y,
        members-walk_teams teams nested below y,
        contains-append (members ++ maintainers) (all_users children ++ all_users teams) y,
        contains-append (all_users children) (all_users teams) y,
      )

  names-walk_teams :
      (teams : Teams) (nested : Bool) (s : WalkState) (y : Text)
      → contains (walk_teams norm_login teams nested s).names y
        ≡ (contains s.names y || contains (all_names teams) y)
  unfolding walk_teams
  names-walk_teams no_teams nested s y = ground (arith, contains-nil y)
  names-walk_teams (add_team name (team members maintainers previously privacy children) teams)
        nested s y =
      let is_nested = nested || has_teams children in
      let v = visited norm_login name members maintainers previously privacy is_nested s in
      let below = walk_teams norm_login children true v in
      ground (
        arith,
        names-visit_team norm_login name members maintainers previously privacy is_nested s y,
        names-walk_teams children true v y,
        names-walk_teams teams nested below y,
        contains-append (name ∷ previously) (all_names children ++ all_names teams) y,
        contains-append (all_names children) (all_names teams) y,
      )

  -- The duplicates are the names that occur twice or more in the tree, or in it and in the names seen
  -- before.
  pub duplicates-walk_teams :
      (teams : Teams) (nested : Bool) (s : WalkState) (y : Text)
      → contains (walk_teams norm_login teams nested s).duplicate_names y ≡ (
          contains s.duplicate_names y
          || leb 2 (count (all_names teams) y + bit (contains s.names y)))
  unfolding walk_teams
  duplicates-walk_teams no_teams nested s y = ground arith
  duplicates-walk_teams (add_team name (team members maintainers previously privacy children) teams)
        nested s y =
      let is_nested = nested || has_teams children in
      let v = visited norm_login name members maintainers previously privacy is_nested s in
      let below = walk_teams norm_login children true v in
      ground (
        arith,
        names-visit_team norm_login name members maintainers previously privacy is_nested s y,
        names-walk_teams children true v y,
        duplicates-visit_team norm_login name members maintainers previously privacy is_nested s y,
        duplicates-walk_teams children true v y,
        duplicates-walk_teams teams nested below y,
        count-append (name ∷ previously) (all_names children ++ all_names teams) y,
        count-append (all_names children) (all_names teams) y,
        contains-count (name ∷ previously) y,
        contains-count (all_names children) y,
      )

  pub nested-walk_teams :
      (teams : Teams) (nested : Bool) (s : WalkState)
      → is_nil (walk_teams norm_login teams nested s).nested_not_closed
        ≡ (is_nil s.nested_not_closed && all_closed nested teams)
  unfolding walk_teams
  nested-walk_teams no_teams nested s = ground arith
  nested-walk_teams (add_team name (team members maintainers previously privacy children) teams)
        nested s =
      let is_nested = nested || has_teams children in
      let v = visited norm_login name members maintainers previously privacy is_nested s in
      let round =
        nested-visit_team norm_login name members maintainers previously privacy is_nested s in
      nested-walk_teams teams nested (walk_teams norm_login children true v)
      ∙ ap (λ b. b && all_closed nested teams)
          (nested-walk_teams children true v ∙ ap (λ b. b && all_closed true children) round)
      ∙ &&-regroup (is_nil s.nested_not_closed) (not is_nested || is_closed privacy)
          (all_closed true children) (all_closed nested teams)

  pub dual-walk_teams :
      (teams : Teams) (nested : Bool) (s : WalkState)
      → is_nil (walk_teams norm_login teams nested s).dual_role_teams
        ≡ (is_nil s.dual_role_teams && single_roles norm_login teams)
  unfolding walk_teams
  dual-walk_teams no_teams nested s = ground arith
  dual-walk_teams (add_team name (team members maintainers previously privacy children) teams)
        nested s =
      let is_nested = nested || has_teams children in
      let v = visited norm_login name members maintainers previously privacy is_nested s in
      let below = walk_teams norm_login children true v in
      ground (
        arith,
        dual-visit_team norm_login name members maintainers previously privacy is_nested s,
        dual-walk_teams children true v,
        dual-walk_teams teams nested below,
      )
