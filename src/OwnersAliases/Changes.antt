-- ===== src/OwnersAliases/Changes.antt =====
-- prow/cmd/owners-aliases-bumper/changes.go: what differs between a repository's aliases and those of
-- its organization, and the same change applied to the members that the file lists.
pub mod Converging
use ci_infra_gardener.Prelude.{
  Bool, true, false, not, ◌&&◌, Option, none, some, List, [], ◌∷◌, ◌++◌, Text, ◌==◌, keep,
  if◌then◌else◌, Result, ok, err,
}
use ci_infra_gardener.Prelude.Sets.{difference, lookup, put, sort}
use ci_infra_gardener.OwnersAliases.Aliases.{OrgAliases, FullOrgAliases, get_config, get_members}

pub record Change : Type 0 where
  pub add : List Text
  pub remove : List Text

abbrev pub is_empty : List Text → Bool
is_empty [] = true
is_empty (x ∷ xs) = false

-- The comparison of one alias: `none` if it is not in the local configuration, or is in sync.
unfoldable pub compare_alias :
    OrgAliases → (alias_name : Text) → (members : List Text) → Option Change
compare_alias local_aliases alias_name members = elim (get_members local_aliases alias_name) [
  | none ↦ none
  | some local_members ↦
      let to_be_added = difference local_members members in
      let to_be_deleted = difference members local_members in
      if is_empty to_be_added && is_empty to_be_deleted
      then none
      else some (record { add = to_be_added; remove = to_be_deleted })
]

unfoldable pub compare_aliases : OrgAliases → OrgAliases → List (Text × Change)
compare_aliases local_aliases [] = []
compare_aliases local_aliases ((alias_name, members) ∷ aliases) =
    let rest = compare_aliases local_aliases aliases in
    elim (compare_alias local_aliases alias_name members) [
      | none ↦ rest
      | some c ↦ (alias_name, c) ∷ rest
    ]

-- The contents of the file come from GitHub, and repoowners.ParseAliasesConfig is the parameter `parse`.
-- A file that is missing, cannot be fetched or cannot be parsed gives no change.
unfoldable pub calculate_alias_changes :
    {E : Type 0} {Raw : Type 0}
    → (parse : Raw → Result E OrgAliases) → Result E Raw
    → FullOrgAliases
    → (org_name : Text) → List (Text × Change)
calculate_alias_changes parse (err e) local_aliases org_name = []
calculate_alias_changes parse (ok raw) local_aliases org_name = elim (parse raw) [
  | err e ↦ []
  | ok aliases ↦ compare_aliases (get_config local_aliases org_name).0 aliases
]

-- slices.DeleteFunc for the value
unfoldable pub delete_value : List Text → Text → List Text
delete_value arr value = keep (λ e. not (e == value)) arr

unfoldable pub delete_values : List Text → List Text → List Text
unfolding delete_value
delete_values arr [] = arr
delete_values arr (user ∷ users) = delete_values (delete_value arr user) users

unfoldable pub append_values : List Text → List Text → List Text
append_values arr [] = arr
append_values arr (user ∷ users) = append_values (arr ++ user ∷ []) users

unfoldable pub apply_change : Change → List Text → List Text
apply_change c arr = sort (append_values (delete_values arr c.remove) c.add)

-- The modifications of writeChanges; an alias that the file does not have is left out.
unfoldable pub apply_changes :
    List (Text × Change) → List (Text × List Text) → List (Text × List Text)
apply_changes [] aliases = aliases
apply_changes ((alias_name, c) ∷ changes) aliases =
    apply_changes changes (elim (lookup alias_name aliases) [
      | none ↦ aliases
      | some arr ↦ put alias_name (apply_change c arr) aliases
    ])
