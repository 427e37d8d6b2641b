-- ===== src/OwnersAliases/Changes/Converging.antt =====
-- Applying the calculated changes brings the file's aliases to the local members.
use ci_infra_gardener.Prelude.{
  ◌≡◌, ◌↔◌, true, false, not, ◌&&◌, ◌||◌, none, some, List, [], ◌∷◌, ◌++◌, arith, Text, ◌==◌,
  ==_iff, contains,
}
use ci_infra_gardener.Prelude.Sets.{
  difference, contains-sort, contains-append, contains-cons, contains-nil, contains-keep,
  contains-difference, empty_iff,
}
use ci_infra_gardener.OwnersAliases.Aliases.{OrgAliases, get_members}
use ci_infra_gardener.OwnersAliases.Changes.{
  Change, is_empty, compare_alias, delete_value, delete_values, append_values, apply_change,
}

contains-delete_values :
    (users arr : List Text) (y : Text)
    → contains (delete_values arr users) y ≡ (contains arr y && not (contains users y))
unfolding delete_values
contains-delete_values [] arr y = ground (arith, contains-nil y)
contains-delete_values (user ∷ users) arr y = ground (
  arith,
  contains-cons user users y,
  contains-keep (λ e. not (e == user)) arr y,
  contains-delete_values users (delete_value arr user) y,
  ==_iff user y,
  ==_iff y user,
)

contains-append_values :
    (users arr : List Text) (y : Text)
    → contains (append_values arr users) y ≡ (contains arr y || contains users y)
unfolding append_values
contains-append_values [] arr y = ground (arith, contains-nil y)
contains-append_values (user ∷ users) arr y = ground (
  arith,
  contains-cons user users y,
  contains-cons user [] y,
  contains-nil y,
  contains-append arr (user ∷ []) y,
  contains-append_values users (arr ++ user ∷ []) y,
)

-- A change takes its removed users out and puts its added users in.
pub contains-apply_change :
    (c : Change) (arr : List Text) (y : Text)
    → contains (apply_change c arr) y
      ≡ ((contains arr y && not (contains c.remove y)) || contains c.add y)
unfolding apply_change
contains-apply_change c arr y = ground (
  arith,
  contains-sort (append_values (delete_values arr c.remove) c.add) y,
  contains-append_values c.add (delete_values arr c.remove) y,
  contains-delete_values c.remove arr y,
)

contains-empty : (xs : List Text) (y : Text) → is_empty xs ≡ true → contains xs y ≡ false
contains-empty [] y h = contains-nil y
contains-empty (x ∷ xs) y h = cc

empty-contains : (xs : List Text) → ((y : Text) → contains xs y ≡ false) → is_empty xs ≡ true
empty-contains xs h = rw ((empty_iff xs).1 h)

-- For an alias of the local configuration there is no change exactly if the repository lists the local
-- members.
pub compare_alias-none :
    (local_aliases : OrgAliases) (alias_name : Text) (members local_members : List Text)
    → get_members local_aliases alias_name ≡ some local_members
    → (compare_alias local_aliases alias_name members ≡ none)
      ↔ ((y : Text) → contains members y ≡ contains local_members y)
unfolding compare_alias
compare_alias-none local_aliases alias_name members local_members known =
    let more = difference local_members members in
    let less = difference members local_members in
    (
      λ h y. ground (
        arith,
        known,
        contains-empty more y,
        contains-empty less y,
        contains-difference local_members members y,
        contains-difference members local_members y,
      ),
      λ same.
          let no_more : is_empty more ≡ true =
            empty-contains more
              (λ y. ground (arith, same y, contains-difference local_members members y)) in
          let no_less : is_empty less ≡ true =
            empty-contains less
              (λ y. ground (arith, same y, contains-difference members local_members y)) in
          ground (arith, known, no_more, no_less),
    )

-- For an alias with a change, the list of the file that the change is applied to becomes a list of
-- exactly the local members, provided that the file lists the members that were compared.
pub compare_alias_converges :
    (local_aliases : OrgAliases) (alias_name : Text) (members local_members arr : List Text)
    (c : Change)
    → get_members local_aliases alias_name ≡ some local_members
    → compare_alias local_aliases alias_name members ≡ some c
    → ((y : Text) → contains arr y ≡ contains members y)
    → (y : Text) → contains (apply_change c arr) y ≡ contains local_members y
unfolding compare_alias
compare_alias_converges local_aliases alias_name members local_members arr c known differs same y =
    ground (
      arith,
      known,
      same y,
      contains-apply_change c arr y,
      contains-difference local_members members y,
      contains-difference members local_members y,
    )
