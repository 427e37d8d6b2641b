-- ===== src/Milestone/Sections.antt =====
-- The sections of a file: findSectionsInFile and the loop of handleMilestoneSection,
-- prow/cmd/milestone-activator/activator.go, over the lines that the scanner yields.
pub mod Brackets
pub mod Rewriting
use ci_infra_gardener.Prelude.{
  ℕ, zero, suc, ◌+◌, Bool, true, false, ◌||◌, Option, none, some, List, [], ◌∷◌, ◌++◌, Text, codes,
  ◌==◌, trim, index?, ltb, eqb, or_else, if◌then◌else◌, Result, ok, err, then_result,
}
use ci_infra_gardener.Milestone.Lines.{handle_activate_line, handle_deactivate_line}

pub data SectionError : Type 0 where
  second_start end_without_start : ℕ → SectionError
  not_ended inconsistent_spaces slice_panic : SectionError

-- What the `switch` on strings.Trim(line, " ") tells apart.
pub data Marker : Type 0 where
  start_marker end_marker no_marker : Marker

-- fmt.Sprintf of startOfSectionPattern and of endOfSectionPattern
unfoldable pub start_of_section : Text → Text
start_of_section identifier = codes "# <-- /start: " ++ (identifier ++ codes " -->")

unfoldable pub end_of_section : Text → Text
end_of_section identifier = codes "# <-- /end: " ++ (identifier ++ codes " -->")

unfoldable pub marker : Text → Text → Marker
marker identifier line =
    if trim line == start_of_section identifier
    then start_marker
    else if trim line == end_of_section identifier
    then end_marker
    else no_marker

-- The loop of findSectionsInFile with its counters.
unfoldable pub scan_sections :
    Text → List Text → (start_of_section end_of_section line_number : ℕ) → Result SectionError Bool
scan_sections identifier [] starts ends n =
    if eqb starts ends then ok (ltb 0 starts) else err not_ended
scan_sections identifier (line ∷ lines) starts ends n = elim (marker identifier line) [
  | start_marker ↦
      let rest = scan_sections identifier lines (suc starts) ends (suc n) in
      if ltb (suc ends) (suc starts) then err (second_start (suc n)) else rest
  | end_marker ↦
      let rest = scan_sections identifier lines starts (suc ends) (suc n) in
      if ltb starts (suc ends) then err (end_without_start (suc n)) else rest
  | no_marker ↦ scan_sections identifier lines starts ends (suc n)
]

unfoldable pub find_sections_in_file : Text → List Text → Result SectionError Bool
find_sections_in_file identifier lines = scan_sections identifier lines 0 0 0

-- The variables of handleMilestoneSection.
pub record Rewrite : Type 0 where
  pub changes : Bool
  pub new_lines : List Text
  pub change_lines : Bool
  pub offset : ℕ

abbrev pub initial_rewrite : Rewrite
initial_rewrite = record { changes = false; new_lines = []; change_lines = false; offset = 0 }

-- An empty milestone deactivates.
unfoldable pub handle_line : Text → Text → ℕ → Option (Text × Bool)
handle_line [] line offset = handle_deactivate_line line offset
handle_line (c ∷ milestone) line offset = handle_activate_line line (c ∷ milestone) offset

-- One round of the loop. A line that trims to an identifier contains it, so the default of `index?`
-- is not met.
unfoldable pub rewrite_line : Text → Text → Rewrite → Text → Result SectionError Rewrite
rewrite_line identifier milestone r line = elim (marker identifier line) [
  | start_marker ↦ ok (record r {
    offset = or_else (index? line (start_of_section identifier)) 0;
    change_lines = true;
    new_lines = r.new_lines ++ line ∷ [];
  })
  | end_marker ↦
      if eqb (or_else (index? line (end_of_section identifier)) 0) r.offset
      then ok (record r { change_lines = false; new_lines = r.new_lines ++ line ∷ [] })
      else err inconsistent_spaces
  | no_marker ↦
      if r.change_lines
      then elim (handle_line milestone line r.offset) [
        | none ↦ err slice_panic
        | some (new_line, line_changed) ↦ ok (record r {
          changes = r.changes || line_changed;
          new_lines = r.new_lines ++ new_line ∷ [];
        })
      ]
      else ok (record r { new_lines = r.new_lines ++ line ∷ [] })
]

unfoldable pub rewrite_lines : Text → Text → Rewrite → List Text → Result SectionError Rewrite
rewrite_lines identifier milestone r [] = ok r
rewrite_lines identifier milestone r (line ∷ lines) =
    elim (rewrite_line identifier milestone r line) [
      | ok r' ↦ rewrite_lines identifier milestone r' lines
      | err e ↦ err e
    ]
