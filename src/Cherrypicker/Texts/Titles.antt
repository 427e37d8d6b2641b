-- ===== src/Cherrypicker/Texts/Titles.antt =====
-- The title of a backport of a backport, and the kinds that are copied:
-- prow/external-plugins/cherrypicker/server.go.
use ci_infra_gardener.Prelude.{
  ◌≡◌, refl, ap, ◌∙◌, inl, inr, true, false, ◌&&◌, ◌||◌, none, some, List, [], ◌∷◌, ◌++◌, arith,
  Text, codes, ◌==◌, ==_iff, contains, cut_prefix, cut_prefix_iff, cut_prefix-append, has_prefix,
  trim_prefix, Bool-cases, Option-cases,
}
use ci_infra_gardener.Prelude.Sets.{
  insert, contains-cons, contains-nil, contains-insert, contains-sort,
}
use ci_infra_gardener.Cherrypicker.Commands.{is_word}
use ci_infra_gardener.Cherrypicker.Texts.{
  remove_first, indicator, omit_base_branch_from_title, title_for, kind_label_prefix, kind_set,
  kind_labels_from_issue_labels,
}

remove_first-append : (c : _) (old s : Text) → remove_first (c ∷ old) ((c ∷ old) ++ s) ≡ s
unfolding remove_first
remove_first-append c old s = rw (remove_first, cut_prefix-append (c ∷ old) s) refl

omit-title :
    (branch rest : Text)
    → is_word branch ≡ true
    → omit_base_branch_from_title (indicator branch ++ rest) branch ≡ rest
unfolding omit_base_branch_from_title
omit-title branch rest full = rw full (remove_first-append b'[' (branch ++ codes "] ") rest)

-- The title of a cherry-pick into a branch, picked again from there, names the new branch in place of that
-- one: the indicators do not pile up.
pub title_for-title_for :
    (title base middle target : Text)
    → is_word middle ≡ true
    → title_for (title_for title base middle) middle target
      ≡ indicator target ++ omit_base_branch_from_title title base
unfolding title_for
title_for-title_for title base middle target h =
    ap (λ r. indicator target ++ r) (omit-title middle (omit_base_branch_from_title title base) h)

-- A label is the prefix followed by the kind if the rest is the kind.
with_prefix :
    (label name k : Text)
    → cut_prefix kind_label_prefix label ≡ some name
    → label == (kind_label_prefix ++ k) ≡ name == k
unfolding ◌==◌
with_prefix label name k h =
    ap (λ l. l == (kind_label_prefix ++ k)) ((cut_prefix_iff kind_label_prefix label name).0 h)

without_prefix :
    (label k : Text)
    → cut_prefix kind_label_prefix label ≡ none
    → label == (kind_label_prefix ++ k) ≡ false
without_prefix label k h = elim (Bool-cases (label == (kind_label_prefix ++ k))) [
  | inl b ↦
      let e : label ≡ kind_label_prefix ++ k = (==_iff label (kind_label_prefix ++ k)).0 b in
      absurd (
        ground
          (arith, h, ap (cut_prefix kind_label_prefix) e, cut_prefix-append kind_label_prefix k))
  | inr b ↦ b
]

contains-kind_set :
    (labels kinds : List Text) (k : Text)
    → contains (kind_set labels kinds) k
      ≡ ((is_word k && contains labels (kind_label_prefix ++ k)) || contains kinds k)
unfolding kind_set has_prefix trim_prefix
contains-kind_set [] kinds k = ground (arith, contains-nil (kind_label_prefix ++ k))
contains-kind_set (label ∷ labels) kinds k =
    let whole = contains-cons label labels (kind_label_prefix ++ k) in
    elim (Option-cases (cut_prefix kind_label_prefix label)) [
      | inl no_kind ↦
          rw no_kind (
            contains-kind_set labels kinds k
            ∙ ground (arith, whole, without_prefix label k no_kind))
      | inr (name, kind) ↦ elim (Bool-cases (is_word name)) [
        | inl b ↦
            rw (kind, b)
              (contains-kind_set labels (insert name kinds) k
                ∙ ground (
                  arith,
                  whole,
                  with_prefix label name k kind,
                  contains-insert name kinds k,
                  ==_iff name k,
                  b,
                ))
        | inr b ↦
            rw (kind, b)
              (contains-kind_set labels kinds k
                ∙ ground (arith, whole, with_prefix label name k kind, ==_iff name k, b))
      ]
    ]

-- The kinds are the rests of the labels with the prefix, as far as they are not empty.
pub contains-kind_labels :
    (labels : List Text) (k : Text)
    → contains (kind_labels_from_issue_labels labels) k
      ≡ (is_word k && contains labels (kind_label_prefix ++ k))
unfolding kind_labels_from_issue_labels
contains-kind_labels labels k =
    contains-sort (kind_set labels []) k
    ∙ contains-kind_set labels [] k
    ∙ ground (arith, contains-nil k)
