-- ===== src/Milestone/Sections/Rewriting.antt =====
-- What the loop of handleMilestoneSection keeps of a file.
use mathlib.Core.List.{append_assoc, append-nil}
use ci_infra_gardener.Prelude.{
  Bool-cases, ℕ, suc, ◌≡◌, refl, ap, ap₂, ◌≢◌, ◌∙◌, if◌then◌else◌, ◌⊎◌, inl, inr, Bool, true, false,
  none, some, List, [], ◌∷◌, ◌++◌, arith, Text, Result, ok, err, length, Option-cases,
}
use ci_infra_gardener.Milestone.Lines.Edits.{deactivate_cases, activate_unchanged}
use ci_infra_gardener.Milestone.Sections.{
  SectionError, Marker, start_marker, end_marker, no_marker, marker, Rewrite, initial_rewrite,
  handle_line, rewrite_line, rewrite_lines,
}

-- Is the place behind a mark within a section?
abbrev pub after_marker : Bool → Marker → Bool
after_marker inside start_marker = true
after_marker inside end_marker = false
after_marker inside no_marker = inside

unfoldable pub in_section : Text → Bool → List Text → Bool
in_section identifier inside [] = inside
in_section identifier inside (line ∷ lines) =
    in_section identifier (after_marker inside (marker identifier line)) lines

handle_line_unchanged :
    (milestone line line' : Text) (offset : ℕ)
    → handle_line milestone line offset ≡ some (line', false)
    → line' ≡ line
unfolding handle_line
handle_line_unchanged [] line line' offset h =
    ground (arith, deactivate_cases line line' offset false h)
handle_line_unchanged (c ∷ m) line line' offset h = activate_unchanged line line' (c ∷ m) offset h

-- One round adds one line, which is the old one unless it stands within a section and is no mark.
record Round (identifier : Text) (r : Rewrite) (line : Text) (r' : Rewrite) (new_line : Text)
    : Type 0 where
  added : r'.new_lines ≡ r.new_lines ++ new_line ∷ []
  place : r'.change_lines ≡ after_marker r.change_lines (marker identifier line)
  kept : (r.change_lines ≡ false) ⊎ (marker identifier line ≢ no_marker) → new_line ≡ line
  unchanged : r'.changes ≡ false → (r.changes ≡ false) × (new_line ≡ line)

-- The line that a round appends.
written : Text → Text → Rewrite → Text → Text
written identifier milestone r line = elim (marker identifier line) [
  | no_marker ↦
      if r.change_lines
      then elim (handle_line milestone line r.offset) [ none ↦ line | some (l, _) ↦ l ]
      else line
  | _ ↦ line
]

Round-rewrite_line :
    (identifier milestone : Text) (r r' : Rewrite) (line : Text)
    → rewrite_line identifier milestone r line ≡ ok r'
    → Round identifier r line r' (written identifier milestone r line)
unfolding rewrite_line written
Round-rewrite_line identifier milestone r r' line h =
    elim (Option-cases (handle_line milestone line r.offset)) [
      | inl stuck ↦ ground (arith, stuck)
      | inr ((l, true), e) ↦ ground (arith, e)
      | inr ((l, false), e) ↦ ground (arith, e, handle_line_unchanged milestone line l r.offset e)
    ]

rewrite_lines-cons :
    (identifier milestone : Text) (r r' : Rewrite) (line : Text) (lines : List Text)
    → rewrite_lines identifier milestone r (line ∷ lines) ≡ ok r'
    → (r1 : Rewrite) × (rewrite_line identifier milestone r line ≡ ok r1)
      × (rewrite_lines identifier milestone r1 lines ≡ ok r')
unfolding rewrite_lines
rewrite_lines-cons identifier milestone r r' line lines h =
    go (rewrite_line identifier milestone r line) h
  where
    go :
        (x : Result SectionError Rewrite)
        → elim x [ ok r1 ↦ rewrite_lines identifier milestone r1 lines | err e ↦ err e ] ≡ ok r'
        → (r1 : Rewrite) × (x ≡ ok r1) × (rewrite_lines identifier milestone r1 lines ≡ ok r')
    go (ok r1) k = (r1, refl, k)
    go (err e) k = cc

rewrite_lines-append :
    (identifier milestone : Text) (r r' : Rewrite) (before after : List Text)
    → rewrite_lines identifier milestone r (before ++ after) ≡ ok r'
    → (r1 : Rewrite) × (rewrite_lines identifier milestone r before ≡ ok r1)
      × (rewrite_lines identifier milestone r1 after ≡ ok r')
unfolding rewrite_lines
rewrite_lines-append identifier milestone r r' [] after h = (r, refl, h)
rewrite_lines-append identifier milestone r r' (line ∷ before) after h =
    let (r1, first, rest) = rewrite_lines-cons identifier milestone r r' line (before ++ after) h in
    let (r2, second, last) = rewrite_lines-append identifier milestone r1 r' before after rest in
    (r2, ground (arith, first, second), last)

-- The lines that a run appends: as many as it reads, and the same ones if it reports no change.
rewrite_lines-appends :
    (identifier milestone : Text) (r r' : Rewrite) (lines : List Text)
    → rewrite_lines identifier milestone r lines ≡ ok r'
    → (new : List Text) × (r'.new_lines ≡ r.new_lines ++ new)
      × (length new ≡ length lines)
      × (r'.change_lines ≡ in_section identifier r.change_lines lines)
      × (r'.changes ≡ false → (r.changes ≡ false) × (new ≡ lines))
unfolding rewrite_lines in_section
rewrite_lines-appends identifier milestone r r' [] h =
    ([], ground (arith, append-nil r.new_lines), refl, ground arith, λ k. ground arith)
rewrite_lines-appends identifier milestone r r' (line ∷ lines) h =
    let (r1, first, rest) = rewrite_lines-cons identifier milestone r r' line lines h in
    let round = Round-rewrite_line identifier milestone r r1 line first in
    let (new, added, size, place, same) =
      rewrite_lines-appends identifier milestone r1 r' lines rest in
    (
      written identifier milestone r line ∷ new,
      added
          ∙ ap (λ (ls : List Text). ls ++ new) round.added
          ∙ append_assoc r.new_lines (written identifier milestone r line ∷ []) new,
      ap suc size,
      place ∙ ap (λ (b : Bool). in_section identifier b lines) round.place,
      λ k. ground (arith, same k, round.unchanged (same k).0),
    )

-- If handleMilestoneSection rewrites a file's lines, it keeps their number, and unless it reports a change
-- it keeps the lines.
pub rewrite_lines-keeps :
    (identifier milestone : Text) (lines : List Text) (r : Rewrite)
    → rewrite_lines identifier milestone initial_rewrite lines ≡ ok r
    → (length r.new_lines ≡ length lines) × ((r.changes ≡ true) ⊎ (r.new_lines ≡ lines))
rewrite_lines-keeps identifier milestone lines r h =
    let (new, added, size, _, same) =
      rewrite_lines-appends identifier milestone initial_rewrite r lines h in
    (
      ap length added ∙ size,
      elim (Bool-cases r.changes) [ inl changed ↦ inl changed | inr k ↦ inr (added ∙ (same k).1) ],
    )

-- A line that stands outside of all sections keeps its text and its place, and so does each mark.
pub outside_line_kept :
    (identifier milestone : Text) (before : List Text) (line : Text) (after : List Text)
    (r : Rewrite)
    → rewrite_lines identifier milestone initial_rewrite (before ++ line ∷ after) ≡ ok r
    → (in_section identifier false before ≡ false) ⊎ (marker identifier line ≢ no_marker)
    → (xs ys : List Text) × (r.new_lines ≡ xs ++ line ∷ ys) × (length xs ≡ length before)
outside_line_kept identifier milestone before line after r h place =
    let (r1, first, rest) =
      rewrite_lines-append identifier milestone initial_rewrite r before (line ∷ after) h in
    let (xs, xs_added, xs_size, xs_place, _) =
      rewrite_lines-appends identifier milestone initial_rewrite r1 before first in
    let (r2, second, last) = rewrite_lines-cons identifier milestone r1 r line after rest in
    let round = Round-rewrite_line identifier milestone r1 r2 line second in
    let (ys, ys_added, _, _, _) = rewrite_lines-appends identifier milestone r2 r after last in
    let kept : written identifier milestone r1 line ≡ line =
      round.kept (elim place [ inl out ↦ inl (xs_place ∙ out) | inr mark ↦ inr mark ]) in
    (
      xs,
      ys,
      ys_added
          ∙ ap (λ (ls : List Text). ls ++ ys)
              (round.added ∙ ap₂ (λ (ls : List Text) (l : Text). ls ++ l ∷ []) xs_added kept)
          ∙ append_assoc xs (line ∷ []) ys,
      xs_size,
    )
