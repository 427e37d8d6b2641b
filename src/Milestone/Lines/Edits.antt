-- ===== src/Milestone/Lines/Edits.antt =====
-- What activating and deactivating a line do to it.

use ci_infra_gardener.Prelude.{
  ℕ, zero, suc, ◌+◌, ◌≤◌, ◌<◌, ◌≡◌, refl, ◌↔◌, ◌⊎◌, inl, inr, Bool, true, false, not, none, some,
  ◌++◌, arith, Text, codes, ◌==◌, ==_iff, has_prefix, trim_prefix, trim_left, cut_prefix,
  last_index?, length, take, drop, replicate, leb, Option-cases, take-append-drop, length-append,
  length-replicate, take-length-append, drop-length-append,
}
use ci_infra_gardener.Milestone.Lines.{
  commented_lines, milestone_property, split_at, is_commented, handle_deactivate_line, uncomment,
  set_milestone, handle_activate_line,
}

trim_left-replicate : (n : ℕ) (s : Text) → trim_left (replicate n b' ' ++ s) ≡ trim_left s
unfolding trim_left
trim_left-replicate zero s = refl
trim_left-replicate (suc n) s = trim_left-replicate n s

is_commented-replicate :
    (n : ℕ) (s : Text) → is_commented (replicate n b' ' ++ (commented_lines ++ s)) ≡ true
unfolding is_commented has_prefix cut_prefix
is_commented-replicate n s = rw trim_left-replicate (unfold trim_left in refl)

-- Deactivating a line panics exactly when the line has no comment sign and ends before the column
-- of its section's start.
pub deactivate_panics_iff :
    (line : Text) (offset : ℕ)
    → (handle_deactivate_line line offset ≡ none)
      ↔ ((is_commented line ≡ false) × (length line < offset))
unfolding handle_deactivate_line
deactivate_panics_iff line offset = (λ h. ground arith, λ h. ground arith)

-- The two ways in which a line is deactivated.
pub deactivate_cases :
    (line line' : Text) (offset : ℕ) (changes : Bool)
    → handle_deactivate_line line offset ≡ some (line', changes)
    → ((is_commented line ≡ true) × (line' ≡ line) × (changes ≡ false))
      ⊎ ((is_commented line ≡ false)
          × (offset ≤ length line)
          × (line' ≡ take offset line ++ (commented_lines ++ drop offset line))
          × (changes ≡ true))
unfolding handle_deactivate_line
deactivate_cases line line' offset changes e = ground arith

-- A line that is indented by blanks up to its section's column is, once deactivated, left alone by
-- every further deactivation.
pub deactivate_idem :
    (line line' : Text) (offset : ℕ) (changes : Bool)
    → take offset line ≡ replicate offset b' '
    → handle_deactivate_line line offset ≡ some (line', changes)
    → handle_deactivate_line line' offset ≡ some (line', false)
unfolding handle_deactivate_line
deactivate_idem line line' offset changes h e =
    elim (deactivate_cases line line' offset changes e) [
      | inl (old, same, _) ↦ rw (same, old)
      | inr (_, _, new, _) ↦
          let c : is_commented line' ≡ true =
            rw (new, h) (is_commented-replicate offset (drop offset line)) in
          rw c
    ]

split_at-append : (a b : Text) (n : ℕ) → length a ≡ n → split_at (a ++ b) n ≡ some (a, b)
unfolding split_at
split_at-append a b n h =
    let fits : leb n (length (a ++ b)) ≡ true = ground (arith, length-append a b) in
    rw fits (cc (rw h at (take-length-append a b), rw h at (drop-length-append a b)))

uncomment-replicate :
    (n : ℕ) (rest : Text)
    → uncomment (replicate n b' ' ++ (commented_lines ++ rest)) n
      ≡ some (replicate n b' ' ++ rest, true)
unfolding uncomment
uncomment-replicate n rest = rw (is_commented-replicate n rest) (
    rw (split_at-append (replicate n b' ') (commented_lines ++ rest) n (length-replicate n b' '))
      (unfold trim_prefix cut_prefix in refl))

-- The deactivated form of a line that is indented by blanks and has no comment sign becomes the line
-- again when the section is activated, if the line sets no milestone.
pub activate-deactivate :
    (line line' milestone : Text) (offset : ℕ)
    → take offset line ≡ replicate offset b' '
    → is_commented line ≡ false
    → last_index? line milestone_property ≡ none
    → handle_deactivate_line line offset ≡ some (line', true)
    → handle_activate_line line' milestone offset ≡ some (line, true)
unfolding handle_activate_line set_milestone
activate-deactivate line line' milestone offset h bare free e =
    elim (deactivate_cases line line' offset true e) [
      | inl (_, _, wrong) ↦ cc
      | inr (_, _, new, _) ↦
          let restored : replicate offset b' ' ++ drop offset line ≡ line =
            rw (← h) (take-append-drop offset line) in
          rw (new, h)
            (rw (uncomment-replicate offset (drop offset line), handle_activate_line)
              (rw restored (rw (free, set_milestone))))
    ]

uncomment_unchanged :
    (line line' : Text) (offset : ℕ) → uncomment line offset ≡ some (line', false) → line' ≡ line
unfolding uncomment
uncomment_unchanged line line' offset h = ground arith

set_milestone_unchanged :
    (milestone line line' : Text) (c : Bool)
    → set_milestone milestone (line, c) ≡ (line', false)
    → (c ≡ false) × (line' ≡ line)
unfolding set_milestone
set_milestone_unchanged milestone line line' c h =
    elim (Option-cases (last_index? line milestone_property)) [
      | inl free ↦ ground (arith, free)
      | inr (i, found) ↦ ground (
        arith,
        found,
        ==_iff (take (i + length milestone_property) line ++ (codes " " ++ milestone)) line,
      )
    ]

-- Activation reports no change only for a line that it leaves as it was.
pub activate_unchanged :
    (line line' milestone : Text) (offset : ℕ)
    → handle_activate_line line milestone offset ≡ some (line', false)
    → line' ≡ line
unfolding handle_activate_line
activate_unchanged line line' milestone offset h = elim (Option-cases (uncomment line offset)) [
  | inl stuck ↦ ground (arith, stuck)
  | inr ((l, c), e) ↦
      let (kept, new) = set_milestone_unchanged milestone l line' c (ground (arith, e)) in
      ground (arith, e, new, uncomment_unchanged line l offset)
]

-- In an active section a line without a comment sign ends, after its last `milestone:`, in the
-- milestone; what stands before it is kept.
pub activate-milestone :
    (line milestone : Text) (offset i : ℕ)
    → is_commented line ≡ false
    → last_index? line milestone_property ≡ some i
    → (changes : Bool) × (handle_activate_line line milestone offset
        ≡ some (take (i + length milestone_property) line ++ (codes " " ++ milestone), changes))
      × ((changes ≡ false)
          ↔ (take (i + length milestone_property) line ++ (codes " " ++ milestone) ≡ line))
unfolding handle_activate_line set_milestone uncomment
activate-milestone line milestone offset i bare found =
    let new = take (i + length milestone_property) line ++ (codes " " ++ milestone) in
    (not (new == line), ground arith, ground (arith, ==_iff new line))
