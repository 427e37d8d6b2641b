-- ===== src/PeribolosCheck/Checking.antt =====
-- Which configurations checkOrg of prow/cmd/peribolos-checkconfig/main.go lets pass.
use ci_infra_gardener.Prelude.{
  ℕ, ◌≤◌, ◌≡◌, refl, sym, ap, ◌∙◌, ◌↔◌, Bool, true, false, not, ◌&&◌, ◌||◌, List, [], ◌∷◌, ◌++◌,
  arith, Text, contains, map, length, keep, any, ltb, leb,
}
use ci_infra_gardener.Prelude.Sets.{
  insert_all, intersection, difference, contains-nil, contains-keep, contains-insert_all,
  contains-intersection, contains-difference, empty_iff,
}
use ci_infra_gardener.OrgConfig.{OrgConfig}
use ci_infra_gardener.PeribolosCheck.{
  Options, CheckError, missing_admins, both_roles, outsiders, duplicate_team_names,
  nested_not_closed, dual_role_teams, repos, report_if_any, check_admins, check_members,
  check_teams, check_org,
}
use ci_infra_gardener.PeribolosCheck.Teams.{
  new_set, normalize, WalkState, initial_state, walk_teams,
}
use ci_infra_gardener.PeribolosCheck.Repos.{is_unarchive, validate_repos}
use ci_infra_gardener.PeribolosCheck.Walking.{
  all_users, all_names, count, all_closed, single_roles, is_nil, is_nil-append, nil_iff,
  contains-new_set,
}
use ci_infra_gardener.PeribolosCheck.Walking.Trees.{
  members-walk_teams, duplicates-walk_teams, nested-walk_teams, dual-walk_teams,
}
use ci_infra_gardener.PeribolosCheck.Apart.{apart, validate_repos_iff}
use ci_infra_gardener.PeribolosCheck.Logins.{contains-normalize}

is_nil-report :
    {A : Type 0} (f : List A → CheckError) (xs : List A) → is_nil (report_if_any f xs) ≡ is_nil xs
is_nil-report f [] = refl
is_nil-report f (x ∷ xs) = refl

is_nil-both :
    (xs ys : List CheckError) (a b : Bool)
    → is_nil xs ≡ a
    → is_nil ys ≡ b
    → is_nil (xs ++ ys) ≡ (a && b)
is_nil-both xs ys a b h k = ground (arith, is_nil-append xs ys)

-- A set is empty if what is known of its members never holds.
nil-by :
    (xs : List Text) (p : Text → Bool)
    → ((y : Text) → contains xs y ≡ p y)
    → (is_nil xs ≡ true) ↔ ((y : Text) → p y ≡ false)
nil-by xs p same = (
  λ h y. sym (same y) ∙ (empty_iff xs).0 ((nil_iff xs).1 h) y,
  λ h. (nil_iff xs).0 ((empty_iff xs).1 (λ y. same y ∙ h y)),
)

all_iff :
    (a b c d e f g h : Bool)
    → (((a && b) && ((c && d) && ((e && (f && g)) && h))) ≡ true) ↔ (
        (a ≡ true)
        × (b ≡ true)
        × (c ≡ true)
        × (d ≡ true)
        × (e ≡ true)
        × (f ≡ true)
        × (g ≡ true)
        × (h ≡ true))
all_iff a b c d e f g h = (λ k. ground arith, λ k. ground arith)

not-ltb : (a b : ℕ) → (not (ltb a b) ≡ true) ↔ (b ≤ a)
not-ltb a b = (λ h. ground arith, λ h. ground arith)

module _ (norm_login : Text → Text) (opt : Options) (org : OrgConfig) where
  abbrev state : WalkState
  state = walk_teams norm_login org.teams false initial_state

  abbrev missing : List Text
  missing = keep (λ r. not (contains (new_set org.admins) r)) opt.required_admins

  abbrev norm_admins : List Text
  norm_admins = normalize norm_login (new_set org.admins)

  abbrev norm_members : List Text
  norm_members = normalize norm_login (new_set org.members)

  abbrev outside : List Text
  outside = difference (normalize norm_login state.members) (insert_all norm_members norm_admins)

  abbrev all_nil : Bool
  all_nil =
      (not (ltb (length (new_set org.admins)) opt.min_admins) && is_nil missing)
      && ((is_nil (intersection norm_admins norm_members) && is_nil outside)
          && ((is_nil state.duplicate_names
                && (is_nil state.nested_not_closed && is_nil state.dual_role_teams))
              && is_nil (validate_repos org.repos)))

  nil-check_admins :
      is_nil (check_admins norm_login opt org)
      ≡ (not (ltb (length (new_set org.admins)) opt.min_admins) && is_nil missing)
  unfolding check_admins
  nil-check_admins = is_nil-both _ _ _ _ (ground arith) (is_nil-report missing_admins missing)

  nil-check_members :
      is_nil (check_members norm_login org state)
      ≡ (is_nil (intersection norm_admins norm_members) && is_nil outside)
  unfolding check_members
  nil-check_members =
      is_nil-both _ _ _ _ (is_nil-report both_roles (intersection norm_admins norm_members))
        (is_nil-report outsiders outside)

  nil-check_teams : is_nil (check_teams norm_login state) ≡ (
      is_nil state.duplicate_names
      && (is_nil state.nested_not_closed && is_nil state.dual_role_teams))
  unfolding check_teams
  nil-check_teams = is_nil-both _ _ _ _ (is_nil-report duplicate_team_names state.duplicate_names) (
      is_nil-both _ _ _ _ (is_nil-report nested_not_closed state.nested_not_closed)
        (is_nil-report dual_role_teams state.dual_role_teams))

  nil-check_org : is_nil (check_org norm_login opt org) ≡ all_nil
  unfolding check_org
  nil-check_org = is_nil-both _ _ _ _ nil-check_admins (
      is_nil-both _ _ _ _ nil-check_members
        (is_nil-both _ _ _ _ nil-check_teams (is_nil-report repos (validate_repos org.repos))))

  missing_iff :
      (is_nil missing ≡ true)
      ↔ ((y : Text) → (contains opt.required_admins y && not (contains org.admins y)) ≡ false)
  missing_iff =
      nil-by missing (λ y. contains opt.required_admins y && not (contains org.admins y))
        (λ y.
          contains-keep (λ r. not (contains (new_set org.admins) r)) opt.required_admins y
          ∙ ap (λ b. contains opt.required_admins y && not b) (contains-new_set org.admins y))

  contains-norm_admins :
      (y : Text) → contains norm_admins y ≡ contains (map norm_login org.admins) y
  contains-norm_admins =
      contains-normalize norm_login (new_set org.admins) org.admins (contains-new_set org.admins)

  contains-norm_members :
      (y : Text) → contains norm_members y ≡ contains (map norm_login org.members) y
  contains-norm_members =
      contains-normalize norm_login (new_set org.members) org.members (contains-new_set org.members)

  both_iff : (is_nil (intersection norm_admins norm_members) ≡ true) ↔ (
      (y : Text)
      → (contains (map norm_login org.admins) y && contains (map norm_login org.members) y) ≡ false)
  both_iff =
      nil-by (intersection norm_admins norm_members)
        (λ y. contains (map norm_login org.admins) y && contains (map norm_login org.members) y)
        (λ y.
          contains-intersection norm_admins norm_members y
          ∙ ground (arith, contains-norm_admins y, contains-norm_members y))

  contains-state_members : (y : Text) → contains state.members y ≡ contains (all_users org.teams) y
  contains-state_members y =
      ground (arith, members-walk_teams norm_login org.teams false initial_state y, contains-nil y)

  outside_iff : (is_nil outside ≡ true) ↔ (
      (y : Text)
      → (contains (map norm_login (all_users org.teams)) y
          && not
              (contains (map norm_login org.admins) y || contains (map norm_login org.members) y))
        ≡ false)
  outside_iff =
      nil-by outside
        (λ y.
          contains (map norm_login (all_users org.teams)) y
          && not
              (contains (map norm_login org.admins) y || contains (map norm_login org.members) y))
        (λ y. ground (
          arith,
          contains-difference (normalize norm_login state.members)
              (insert_all norm_members norm_admins) y,
          contains-insert_all norm_members norm_admins y,
          contains-norm_admins y,
          contains-norm_members y,
          contains-normalize norm_login state.members (all_users org.teams) contains-state_members
              y,
        ))

  duplicates_iff :
      (is_nil state.duplicate_names ≡ true) ↔ ((y : Text) → count (all_names org.teams) y ≤ 1)
  duplicates_iff =
      let once =
        nil-by state.duplicate_names (λ y. leb 2 (count (all_names org.teams) y))
          (λ y. ground (
            arith,
            duplicates-walk_teams norm_login org.teams false initial_state y,
            contains-nil y,
          )) in
      (λ h y. ground (arith, once.0 h y), λ h. once.1 (λ y. ground (arith, h y)))

  -- What makes a configuration valid, in its own terms.
  pub record IsValid : Type 0 where
    pub enough_admins : opt.min_admins ≤ length (new_set org.admins)
    pub has_required :
        (y : Text) → (contains opt.required_admins y && not (contains org.admins y)) ≡ false
    pub one_role :
        (y : Text)
        → (contains (map norm_login org.admins) y && contains (map norm_login org.members) y)
          ≡ false
    pub none_outside :
        (y : Text)
        → (contains (map norm_login (all_users org.teams)) y
            && not
                (contains (map norm_login org.admins) y || contains (map norm_login org.members) y))
          ≡ false
    pub unique_names : (y : Text) → count (all_names org.teams) y ≤ 1
    pub closed_teams : all_closed false org.teams ≡ true
    pub one_team_role : single_roles norm_login org.teams ≡ true
    pub repos_apart : apart org.repos ≡ true
    pub none_unarchived : any (λ r. is_unarchive r.1.archived) org.repos ≡ false

  -- checkOrg reports no error exactly if the organization has enough distinct admins and the required ones,
  -- both as their logins are written; if, with normalized logins, no user is both admin and member, all
  -- users of teams at any depth belong to the organization, and no user has both roles in a team; and if team
  -- names are unique with those of before, nested teams that set a privacy are closed, and the repositories
  -- share no name and none sets archived: false.
  pub check_org_iff : (check_org norm_login opt org ≡ []) ↔ IsValid
  check_org_iff =
      let parts =
        all_iff (not (ltb (length (new_set org.admins)) opt.min_admins)) (is_nil missing)
          (is_nil (intersection norm_admins norm_members)) (is_nil outside)
          (is_nil state.duplicate_names) (is_nil state.nested_not_closed)
          (is_nil state.dual_role_teams) (is_nil (validate_repos org.repos)) in
      let closed = nested-walk_teams norm_login org.teams false initial_state in
      let single = dual-walk_teams norm_login org.teams false initial_state in
      let enough = not-ltb (length (new_set org.admins)) opt.min_admins in
      let valid_repos = validate_repos_iff org.repos in
      let no_repo_errors = nil_iff (validate_repos org.repos) in
      (
        λ h.
            let (admins, required, role, inside, names, nested, dual, passed) =
              parts.0 (sym nil-check_org ∙ (nil_iff (check_org norm_login opt org)).0 h) in
            let (apart_repos, archived) = valid_repos.0 (no_repo_errors.1 passed) in
            record {
              enough_admins = enough.0 admins;
              has_required = missing_iff.0 required;
              one_role = both_iff.0 role;
              none_outside = outside_iff.0 inside;
              unique_names = duplicates_iff.0 names;
              closed_teams = sym closed ∙ nested;
              one_team_role = sym single ∙ dual;
              repos_apart = apart_repos;
              none_unarchived = archived;
            },
        λ v. (nil_iff (check_org norm_login opt org)).1 (
            nil-check_org
            ∙ parts.1 (
              enough.1 v.enough_admins,
              missing_iff.1 v.has_required,
              both_iff.1 v.one_role,
              outside_iff.1 v.none_outside,
              duplicates_iff.1 v.unique_names,
              closed ∙ v.closed_teams,
              single ∙ v.one_team_role,
              no_repo_errors.0 (valid_repos.1 (v.repos_apart, v.none_unarchived)),
            )),
      )
