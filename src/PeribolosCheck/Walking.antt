-- ===== src/PeribolosCheck/Walking.antt =====
-- What walkTeams of prow/cmd/peribolos-checkconfig/main.go looks for in a tree of teams, in its own terms.
pub mod Rounds
pub mod Trees
use mathlib.Core.List.{map-append}
use ci_infra_gardener.Prelude.{
  ℕ, zero, suc, ◌+◌, ◌≤◌, ◌<◌, ◌≡◌, ◌≢◌, refl, sym, ap, ◌∙◌, ◌↔◌, ◌⊎◌, inl, inr, Bool, true, false,
  not, ◌&&◌, ◌||◌, Option, none, some, List, [], ◌∷◌, ◌++◌, arith, Text, ◌==◌, ==_iff, contains,
  map, leb, if◌then◌else◌, Bool-cases,
}
use ci_infra_gardener.Prelude.Sets.{
  insert, insert_all, intersection, contains-cons, contains-nil, contains-append, contains-insert,
  contains-insert_all, contains-intersection, empty_iff,
}
use ci_infra_gardener.OrgConfig.{Privacy, closed, secret, Team, Teams, team, no_teams, add_team}
use ci_infra_gardener.PeribolosCheck.Teams.{
  new_set, normalize, WalkState, initial_state, has_teams, add_users, note_dual_role, visit_name,
  visit_names, note_privacy, visit_team, walk_teams,
}

-- All users of all teams, with what nests in them, and all names, those of before included.
abbrev pub all_users : Teams → List Text
all_users no_teams = []
all_users (add_team name (team members maintainers previously privacy children) teams) =
    (members ++ maintainers) ++ (all_users children ++ all_users teams)

abbrev pub all_names : Teams → List Text
all_names no_teams = []
all_names (add_team name (team members maintainers previously privacy children) teams) =
    (name ∷ previously) ++ (all_names children ++ all_names teams)

abbrev pub count : List Text → Text → ℕ
count [] y = 0
count (x ∷ xs) y = if x == y then suc (count xs y) else count xs y

pub count-append : (xs ys : List Text) (y : Text) → count (xs ++ ys) y ≡ count xs y + count ys y
count-append [] ys y = ground arith
count-append (x ∷ xs) ys y = ground (arith, count-append xs ys y)

abbrev pub bit : Bool → ℕ
bit true = 1
bit false = 0

abbrev pub is_closed : Option Privacy → Bool
is_closed (some secret) = false
is_closed _ = true

-- Do nested teams leave their privacy unset, or closed?
abbrev pub all_closed : (parent_is_nested : Bool) → Teams → Bool
all_closed parent_is_nested no_teams = true
all_closed parent_is_nested
      (add_team name (team members maintainers previously privacy children) teams) =
    (not (parent_is_nested || has_teams children) || is_closed privacy)
    && (all_closed true children && all_closed parent_is_nested teams)

abbrev pub is_nil : {A : Type 0} → List A → Bool
is_nil [] = true
is_nil (x ∷ xs) = false

pub is_nil-append : {A : Type 0} (xs ys : List A) → is_nil (xs ++ ys) ≡ (is_nil xs && is_nil ys)
is_nil-append [] ys = refl
is_nil-append (x ∷ xs) ys = refl

pub nil_iff : {A : Type 0} (xs : List A) → (xs ≡ []) ↔ (is_nil xs ≡ true)
nil_iff [] = (λ h. refl, λ h. refl)
nil_iff (x ∷ xs) = (λ h. ground arith, λ h. cc)

pub contains-new_set : (xs : List Text) (y : Text) → contains (new_set xs) y ≡ contains xs y
contains-new_set xs y = ground (arith, contains-insert_all xs [] y, contains-nil y)

module _ (norm_login : Text → Text) where
  -- The users who are both members and maintainers of a team.
  abbrev pub both_of : (members maintainers : List Text) → List Text
  both_of members maintainers =
      intersection (normalize norm_login (new_set members))
        (normalize norm_login (new_set maintainers))

  abbrev pub single_roles : Teams → Bool
  single_roles no_teams = true
  single_roles (add_team name (team members maintainers previously privacy children) teams) =
      is_nil (both_of members maintainers) && (single_roles children && single_roles teams)
