-- ===== src/OwnersAliases/Aliases/Members.antt =====
-- Who belongs to an alias that is built from the teams.
use mathlib.Core.List.{map-append}
use ci_infra_gardener.Prelude.{
  ◌≡◌, Bool, false, ◌&&◌, ◌||◌, Option, none, some, List, [], ◌∷◌, ◌++◌, arith, Text, codes, ◌==◌,
  ==_iff, contains, map, inl, inr, Option-cases,
}
use ci_infra_gardener.Prelude.Sets.{
  lookup, insert, lookup-put, contains-insert, contains-cons, contains-nil, contains-append,
}
use ci_infra_gardener.OrgConfig.{Teams, team, no_teams, add_team}
use ci_infra_gardener.OwnersAliases.Aliases.{
  OrgAliases, add_member, get_members, add_members, add_members_from_teams,
}

abbrev has_member : Option (List Text) → Text → Bool
has_member none m = false
has_member (some ms) m = contains ms m

unfoldable pub is_member : OrgAliases → (alias_name member : Text) → Bool
is_member aliases alias_name member = has_member (get_members aliases alias_name) member

is_member-add_member :
    (aliases : OrgAliases) (a m b n : Text)
    → is_member (add_member aliases a m) b n ≡ (is_member aliases b n || (a == b && m == n))
unfolding is_member add_member get_members
is_member-add_member aliases a m b n = elim (Option-cases (lookup a aliases)) [
  | inl new ↦ ground (
    arith,
    new,
    ==_iff a b,
    contains-insert m [] n,
    contains-nil n,
    lookup-put a b (insert m []) aliases,
  )
  | inr (ms, old) ↦
      ground (arith, old, ==_iff a b, contains-insert m ms n, lookup-put a b (insert m ms) aliases)
]

module _ (norm_login : Text → Text) where
  is_member-add_members :
      (aliases : OrgAliases) (a : Text) (ms : List Text) (b n : Text)
      → is_member (add_members norm_login aliases a ms) b n
        ≡ (is_member aliases b n || (a == b && contains (map norm_login ms) n))
  unfolding add_members
  is_member-add_members aliases a [] b n = ground (arith, contains-nil n)
  is_member-add_members aliases a (m ∷ ms) b n = ground (
    arith,
    is_member-add_members (add_member aliases a (norm_login m)) a ms b n,
    is_member-add_member aliases a (norm_login m) b n,
    contains-cons (norm_login m) (map norm_login ms) n,
  )

  -- Does a team whose path of names is the alias have the member, or the maintainer? Names of parents
  -- stand before a slash, and names and logins are normalized.
  unfoldable pub in_team : (alias_prefix : Text) → Teams → (alias_name member : Text) → Bool
  in_team alias_prefix no_teams b n = false
  in_team alias_prefix (add_team name (team members maintainers previously privacy children) teams)
        b n =
      (norm_login (alias_prefix ++ name) == b
        && contains (map norm_login (members ++ maintainers)) n)
      || in_team (alias_prefix ++ (name ++ codes "/")) children b n
      || in_team alias_prefix teams b n

  -- After the teams of an organization are added, an alias has exactly the members that it had and those
  -- of the teams, at any depth, whose path of names is the alias.
  pub is_member-add_teams :
      (aliases : OrgAliases) (teams : Teams) (alias_prefix b n : Text)
      → is_member (add_members_from_teams norm_login aliases teams alias_prefix) b n
        ≡ (is_member aliases b n || in_team alias_prefix teams b n)
  unfolding add_members_from_teams in_team
  is_member-add_teams aliases no_teams alias_prefix b n = ground arith
  is_member-add_teams aliases
        (add_team name (team members maintainers previously privacy children) teams) alias_prefix b
        n =
      let a = norm_login (alias_prefix ++ name) in
      let one = add_members norm_login aliases a members in
      let two = add_members norm_login one a maintainers in
      let below = alias_prefix ++ (name ++ codes "/") in
      let three = add_members_from_teams norm_login two children below in
      ground (
        arith,
        is_member-add_members aliases a members b n,
        is_member-add_members one a maintainers b n,
        is_member-add_teams two children below b n,
        is_member-add_teams three teams alias_prefix b n,
        contains-append (map norm_login members) (map norm_login maintainers) n,
        map-append norm_login members maintainers,
      )
