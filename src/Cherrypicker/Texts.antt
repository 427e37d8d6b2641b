-- ===== src/Cherrypicker/Texts.antt =====
-- The texts that the cherrypicker makes and reads, prow/external-plugins/cherrypicker/server.go.
pub mod Titles
use ci_infra_gardener.Prelude.{
  ℕ, ◌+◌, Bool, true, false, not, ◌&&◌, ◌||◌, Option, none, some, List, [], ◌∷◌, ◌++◌, Text, codes,
  cut_prefix, has_prefix, trim_prefix, replace_byte, decimal, eqb, keep, map, if◌then◌else◌,
}
use ci_infra_gardener.Prelude.Sets.{insert, sort}
use ci_infra_gardener.Cherrypicker.Commands.{is_space, is_word}

-- strings.Replace(s, old, "", 1)
unfoldable pub remove_first : (old s : Text) → Text
unfolding cut_prefix
remove_first old [] = elim (cut_prefix old []) [ none ↦ [] | some rest ↦ rest ]
remove_first old (c ∷ s) =
    let later = remove_first old s in
    elim (cut_prefix old (c ∷ s)) [ none ↦ c ∷ later | some rest ↦ rest ]

abbrev pub indicator : (branch : Text) → Text
indicator branch = codes "[" ++ (branch ++ codes "] ")

unfoldable pub omit_base_branch_from_title : (title base : Text) → Text
unfolding remove_first
omit_base_branch_from_title title base =
    if not (is_word base) then title else remove_first (indicator base) title

-- The title of the pull request for a branch.
unfoldable pub title_for : (title base target : Text) → Text
title_for title base target = indicator target ++ omit_base_branch_from_title title base

unfoldable pub normalize : Text → Text
normalize input = replace_byte input b'/' b'-'

abbrev pub cherry_pick_branch : ℕ → (target : Text) → Text
cherry_pick_branch number target =
    codes "cherry-pick-" ++ (decimal number ++ (codes "-to-" ++ target))

abbrev pub patch_path : (org repo : Text) → ℕ → (target : Text) → Text
patch_path org repo number target =
    codes "/tmp/"
    ++ (org
        ++ (codes "_"
            ++ (repo
                ++ (codes "_"
                    ++ (decimal number ++ (codes "_" ++ (normalize target ++ codes ".patch")))))))

abbrev pub kind_label_prefix : Text
kind_label_prefix = codes "kind/"

-- The loop that collects the kinds in a set.
unfoldable pub kind_set : List Text → List Text → List Text
kind_set [] kinds = kinds
kind_set (label ∷ labels) kinds =
    let name = trim_prefix label kind_label_prefix in
    if has_prefix label kind_label_prefix && is_word name
    then kind_set labels (insert name kinds)
    else kind_set labels kinds

unfoldable pub kind_labels_from_issue_labels : List Text → List Text
unfolding kind_set
kind_labels_from_issue_labels labels = sort (kind_set labels [])

unfoldable pub trim_start : Text → Text
trim_start [] = []
trim_start (c ∷ s) = let rest = trim_start s in if is_space c then rest else c ∷ s

unfoldable pub trim_end : Text → Text
trim_end [] = []
trim_end (c ∷ s) =
    let rest = trim_end s in if is_space c && not (is_word rest) then [] else c ∷ rest

-- strings.TrimSpace, for ASCII
unfoldable pub trim_space : Text → Text
unfolding trim_start trim_end
trim_space s = trim_end (trim_start s)

-- The groups of a match of releaseNoteRe that are read.
pub record NoteMatch : Type 0 where
  pub category : Text
  pub audience : Text
  pub source : Text
  pub reference : Text
  pub author : Text
  pub note : Text

unfoldable pub format_note : (pr_author org repo : Text) → ℕ → NoteMatch → Text
unfolding trim_space
format_note pr_author org repo number m =
    let given = is_word (trim_space m.source) && is_word (trim_space m.reference) in
    let source =
      if given then trim_space m.source else codes "github.com/" ++ (org ++ (codes "/" ++ repo)) in
    let reference = if given then trim_space m.reference else codes "#" ++ decimal number in
    let author =
      if is_word (trim_space m.author) then trim_space m.author else codes "@" ++ pr_author in
    codes "```"
    ++ (trim_space m.category
        ++ (codes " "
            ++ (trim_space m.audience
                ++ (codes " "
                    ++ (source
                        ++ (codes " "
                            ++ (reference
                                ++ (codes " "
                                    ++ (author
                                        ++ (codes "\n"
                                            ++ (trim_space m.note ++ codes "\n```")))))))))))

-- The notes, one for each match, with a line feed between them.
unfoldable pub release_notes : (pr_author org repo : Text) → ℕ → List NoteMatch → Text
unfolding format_note
release_notes pr_author org repo number [] = []
release_notes pr_author org repo number (m ∷ ms) =
    let rest = release_notes pr_author org repo number ms in
    let text = format_note pr_author org repo number m in
    elim ms [ [] ↦ text | _ ∷ _ ↦ text ++ (codes "\n" ++ rest) ]
