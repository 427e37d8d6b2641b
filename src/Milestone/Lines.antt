-- ===== src/Milestone/Lines.antt =====
-- One line inside a section: handleActivateLine and handleDeactivateLine of
-- prow/cmd/milestone-activator/activator.go. `none` is a run-time panic, a slice out of range.
pub mod Edits
use ci_infra_gardener.Prelude.{
  ℕ, ◌+◌, Bool, true, false, not, ◌||◌, Option, none, some, ◌++◌, Text, codes, ◌==◌, has_prefix,
  trim_prefix, trim_left, last_index?, length, take, drop, leb, if◌then◌else◌,
}

abbrev pub commented_lines : Text
commented_lines = codes "# "

abbrev pub milestone_property : Text
milestone_property = codes "milestone:"

-- line[0:offset] and line[offset:]
unfoldable pub split_at : Text → ℕ → Option (Text × Text)
split_at line offset =
    if leb offset (length line) then some (take offset line, drop offset line) else none

unfoldable pub is_commented : Text → Bool
is_commented line = has_prefix (trim_left line) commented_lines

unfoldable pub handle_deactivate_line : Text → ℕ → Option (Text × Bool)
unfolding split_at
handle_deactivate_line line offset =
    if is_commented line then some (line, false) else elim (split_at line offset) [
      | none ↦ none
      | some (before, after) ↦ some (before ++ (commented_lines ++ after), true)
    ]

-- The first half of handleActivateLine: the comment sign goes.
unfoldable pub uncomment : Text → ℕ → Option (Text × Bool)
unfolding split_at
uncomment line offset =
    if not (is_commented line) then some (line, false) else elim (split_at line offset) [
      | none ↦ none
      | some (before, after) ↦ some (before ++ trim_prefix after commented_lines, true)
    ]

-- Its second half: what follows the last `milestone:` becomes the milestone.
unfoldable pub set_milestone : Text → Text × Bool → Text × Bool
set_milestone milestone (line, changes) = elim (last_index? line milestone_property) [
  | none ↦ (line, changes)
  | some i ↦
      let new_line = take (i + length milestone_property) line ++ (codes " " ++ milestone) in
      (new_line, changes || not (new_line == line))
]

unfoldable pub handle_activate_line : Text → Text → ℕ → Option (Text × Bool)
handle_activate_line line milestone offset = elim (uncomment line offset) [
  | none ↦ none
  | some edited ↦ some (set_milestone milestone edited)
]
