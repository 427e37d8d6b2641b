-- ===== src/PeribolosCheck/Walking/Rounds.antt =====
-- What one round of walkTeams, prow/cmd/peribolos-checkconfig/main.go, adds to its state.
use ci_infra_gardener.Prelude.{
  ◌+◌, ◌≡◌, refl, ap, ◌∙◌, Bool, true, false, not, ◌&&◌, ◌||◌, Option, none, some, List, [], ◌∷◌,
  ◌++◌, arith, Text, ==_iff, contains, leb,
}
use ci_infra_gardener.Prelude.Sets.{
  insert_all, contains-cons, contains-nil, contains-append, contains-insert, contains-insert_all,
}
use ci_infra_gardener.OrgConfig.{Privacy, closed, secret}
use ci_infra_gardener.PeribolosCheck.Teams.{
  WalkState, add_users, note_dual_role, visit_name, visit_names, note_privacy, visit_team,
}
use ci_infra_gardener.PeribolosCheck.Walking.{count, bit, is_nil, is_nil-append, is_closed, both_of}

names-visit_names :
    (s : WalkState) (ns : List Text) (y : Text)
    → contains (visit_names s ns).names y ≡ (contains s.names y || contains ns y)
unfolding visit_names visit_name
names-visit_names s [] y = ground (arith, contains-nil y)
names-visit_names s (n ∷ ns) y = ground (
  arith,
  contains-cons n ns y,
  contains-insert n s.names y,
  names-visit_names (visit_name s n) ns y,
)

duplicates-visit_names :
    (s : WalkState) (ns : List Text) (y : Text)
    → contains (visit_names s ns).duplicate_names y
      ≡ (contains s.duplicate_names y || leb 2 (count ns y + bit (contains s.names y)))
unfolding visit_names visit_name
duplicates-visit_names s [] y = ground arith
duplicates-visit_names s (n ∷ ns) y = ground (
  arith,
  ==_iff n y,
  contains-insert n s.names y,
  contains-insert n s.duplicate_names y,
  duplicates-visit_names (visit_name s n) ns y,
)

-- The sets of the state.
abbrev sets_of : WalkState → List Text × (List Text × List Text)
sets_of s = (s.members, (s.names, s.duplicate_names))

sets-note_privacy :
    (name : Text) (nested : Bool) (privacy : Option Privacy) (s : WalkState)
    → sets_of (note_privacy name nested privacy s) ≡ sets_of s
sets-note_privacy name true (some secret) s = refl
sets-note_privacy name true (some closed) s = refl
sets-note_privacy name true none s = refl
sets-note_privacy name false privacy s = refl

sets-note_dual_role :
    (name : Text) (users : List Text) (s : WalkState)
    → sets_of (note_dual_role name users s) ≡ sets_of s
sets-note_dual_role name [] s = refl
sets-note_dual_role name (u ∷ us) s = refl

members-visit_names : (s : WalkState) (ns : List Text) → (visit_names s ns).members ≡ s.members
unfolding visit_names visit_name
members-visit_names s [] = refl
members-visit_names s (n ∷ ns) = members-visit_names (visit_name s n) ns

nested-visit_names :
    (s : WalkState) (ns : List Text) → (visit_names s ns).nested_not_closed ≡ s.nested_not_closed
unfolding visit_names visit_name
nested-visit_names s [] = refl
nested-visit_names s (n ∷ ns) = nested-visit_names (visit_name s n) ns

dual-visit_names :
    (s : WalkState) (ns : List Text) → (visit_names s ns).dual_role_teams ≡ s.dual_role_teams
unfolding visit_names visit_name
dual-visit_names s [] = refl
dual-visit_names s (n ∷ ns) = dual-visit_names (visit_name s n) ns

nested-note_privacy :
    (name : Text) (nested : Bool) (privacy : Option Privacy) (s : WalkState)
    → is_nil (note_privacy name nested privacy s).nested_not_closed
      ≡ (is_nil s.nested_not_closed && (not nested || is_closed privacy))
nested-note_privacy name true (some secret) s =
    ground (arith, is_nil-append s.nested_not_closed ((name, secret) ∷ []))
nested-note_privacy name true (some closed) s = ground arith
nested-note_privacy name true none s = ground arith
nested-note_privacy name false privacy s = ground arith

dual-note_privacy :
    (name : Text) (nested : Bool) (privacy : Option Privacy) (s : WalkState)
    → (note_privacy name nested privacy s).dual_role_teams ≡ s.dual_role_teams
dual-note_privacy name true (some secret) s = refl
dual-note_privacy name true (some closed) s = refl
dual-note_privacy name true none s = refl
dual-note_privacy name false privacy s = refl

nested-note_dual_role :
    (name : Text) (users : List Text) (s : WalkState)
    → (note_dual_role name users s).nested_not_closed ≡ s.nested_not_closed
nested-note_dual_role name [] s = refl
nested-note_dual_role name (u ∷ us) s = refl

dual-note_dual_role :
    (name : Text) (users : List Text) (s : WalkState)
    → is_nil (note_dual_role name users s).dual_role_teams
      ≡ (is_nil s.dual_role_teams && is_nil users)
dual-note_dual_role name [] s = ground arith
dual-note_dual_role name (u ∷ us) s =
    ground (arith, is_nil-append s.dual_role_teams ((name, u ∷ us) ∷ []))

module _ (norm_login : Text → Text) where
  module _ (name : Text) (members maintainers previously : List Text) (privacy : Option Privacy)
      (nested : Bool) (s : WalkState) where
    abbrev pub visited : WalkState
    visited = visit_team norm_login name members maintainers previously privacy nested s

    abbrev pub noted : WalkState
    noted =
        note_dual_role name (both_of norm_login members maintainers)
          (add_users members maintainers s)

    sets-visit_team : sets_of visited ≡ sets_of (visit_names noted (name ∷ previously))
    unfolding visit_team
    sets-visit_team = sets-note_privacy name nested privacy (visit_names noted (name ∷ previously))

    pub members-visit_team :
        (y : Text)
        → contains visited.members y ≡ (contains s.members y || contains (members ++ maintainers) y)
    unfolding add_users
    members-visit_team y =
        let same : visited.members ≡ insert_all maintainers (insert_all members s.members) =
          ap (λ (p : List Text × (List Text × List Text)). p.0) sets-visit_team
          ∙ members-visit_names noted (name ∷ previously)
          ∙ ap (λ (p : List Text × (List Text × List Text)). p.0)
              (sets-note_dual_role name (both_of norm_login members maintainers)
                (add_users members maintainers s)) in
        rw same (
          ground (
            arith,
            contains-insert_all maintainers (insert_all members s.members) y,
            contains-insert_all members s.members y,
            contains-append members maintainers y,
          ))

    pub names-visit_team :
        (y : Text)
        → contains visited.names y ≡ (contains s.names y || contains (name ∷ previously) y)
    unfolding add_users
    names-visit_team y =
        let first : visited.names ≡ (visit_names noted (name ∷ previously)).names =
          ap (λ (p : List Text × (List Text × List Text)). p.1.0) sets-visit_team in
        let same : noted.names ≡ s.names =
          ap (λ (p : List Text × (List Text × List Text)). p.1.0)
            (sets-note_dual_role name (both_of norm_login members maintainers)
              (add_users members maintainers s)) in
        ap (λ (xs : List Text). contains xs y) first
        ∙ names-visit_names noted (name ∷ previously) y
        ∙ ap (λ (xs : List Text). contains xs y || contains (name ∷ previously) y) same

    pub duplicates-visit_team :
        (y : Text)
        → contains visited.duplicate_names y ≡ (
            contains s.duplicate_names y
            || leb 2 (count (name ∷ previously) y + bit (contains s.names y)))
    unfolding add_users
    duplicates-visit_team y =
        let first : visited.duplicate_names
            ≡ (visit_names noted (name ∷ previously)).duplicate_names =
          ap (λ (p : List Text × (List Text × List Text)). p.1.1) sets-visit_team in
        let same : (noted.names, noted.duplicate_names) ≡ (s.names, s.duplicate_names) =
          ap (λ (p : List Text × (List Text × List Text)). p.1)
            (sets-note_dual_role name (both_of norm_login members maintainers)
              (add_users members maintainers s)) in
        ap (λ (xs : List Text). contains xs y) first
        ∙ duplicates-visit_names noted (name ∷ previously) y
        ∙ ap
            (λ (p : List Text × List Text).
              contains p.1 y || leb 2 (count (name ∷ previously) y + bit (contains p.0 y)))
            same

    pub nested-visit_team :
        is_nil visited.nested_not_closed
        ≡ (is_nil s.nested_not_closed && (not nested || is_closed privacy))
    unfolding visit_team add_users
    nested-visit_team =
        let same : (visit_names noted (name ∷ previously)).nested_not_closed ≡ s.nested_not_closed =
          nested-visit_names noted (name ∷ previously)
          ∙ nested-note_dual_role name (both_of norm_login members maintainers)
              (add_users members maintainers s) in
        nested-note_privacy name nested privacy (visit_names noted (name ∷ previously))
        ∙ ap (λ (xs : List (Text × Privacy)). is_nil xs && (not nested || is_closed privacy)) same

    pub dual-visit_team :
        is_nil visited.dual_role_teams
        ≡ (is_nil s.dual_role_teams && is_nil (both_of norm_login members maintainers))
    unfolding visit_team add_users
    dual-visit_team =
        let same : visited.dual_role_teams ≡ noted.dual_role_teams =
          dual-note_privacy name nested privacy (visit_names noted (name ∷ previously))
          ∙ dual-visit_names noted (name ∷ previously) in
        ap (λ (xs : List (Text × List Text)). is_nil xs) same
        ∙ dual-note_dual_role name (both_of norm_login members maintainers)
            (add_users members maintainers s)
