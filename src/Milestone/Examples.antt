-- ===== src/Milestone/Examples.antt =====
-- Runs of the milestone activator's functions on small files, and its theorems at them.
use ci_infra_gardener.Prelude.{
  length, true, ℕ, ◌≡◌, refl, ◌↔◌, inl, false, none, some, List, [], ◌∷◌, ◌++◌, Text, codes, ◌<◌,
  All, last_index?, ok, err, trim_left, trim, has_prefix, cut_prefix, ◌==◌, index?, arith,
}
use ci_infra_gardener.Github.{open_state}
use ci_infra_gardener.Interactor
use ci_infra_gardener.Milestone.Lines.{
  milestone_property, is_commented, split_at, handle_deactivate_line, uncomment, set_milestone,
  handle_activate_line,
}
use ci_infra_gardener.Milestone.Lines.Edits.{deactivate_panics_iff, activate-deactivate}
use ci_infra_gardener.Milestone.Sections.{
  marker, scan_sections, find_sections_in_file, Rewrite, initial_rewrite, rewrite_line,
  rewrite_lines, handle_line, start_of_section, end_of_section, not_ended,
}
use ci_infra_gardener.Milestone.Sections.Brackets.{
  Alternates, marks, is_nonempty, find_sections_iff,
}
use ci_infra_gardener.Milestone.Sections.Rewriting.{outside_line_kept, in_section}
use ci_infra_gardener.Milestone.Choosing.{Milestone}
use ci_infra_gardener.Milestone.Scanning.{
  scan-print_lines, scan_lines, print_lines, IsLine, drop_cr,
}
use ci_infra_gardener.Milestone.Files.{Files, Call, Options, run_milestone_activator}
use ci_infra_gardener.Interactor.Examples.{fake_remote, upstream}

abbrev plugin_line : Text
plugin_line = codes "  - verify"

abbrev commented_plugin : Text
commented_plugin = codes "  # - verify"

abbrev milestone_line : Text
milestone_line = codes "milestone: v1"

abbrev release : Text
release = codes "release"

abbrev start_line : Text
start_line = codes "# <-- /start: release -->"

abbrev end_line : Text
end_line = codes "# <-- /end: release -->"

abbrev config_lines : List Text
config_lines = codes "a" ∷ start_line ∷ milestone_line ∷ end_line ∷ codes "b" ∷ []

deactivates_plugin : handle_deactivate_line plugin_line 2 ≡ some (commented_plugin, true)
unfolding handle_deactivate_line is_commented split_at has_prefix trim_left cut_prefix
deactivates_plugin = refl

finds_section : find_sections_in_file release config_lines ≡ ok true
unfolding find_sections_in_file scan_sections marker trim trim_left start_of_section end_of_section
    ◌==◌
finds_section = refl

misses_end : find_sections_in_file release (start_line ∷ []) ≡ err not_ended
unfolding find_sections_in_file scan_sections marker trim trim_left start_of_section end_of_section
    ◌==◌
misses_end = refl

sets_milestone :
    handle_activate_line milestone_line (codes "v2") 0 ≡ some (codes "milestone: v2", true)
unfolding handle_activate_line uncomment set_milestone is_commented split_at has_prefix trim_left
    cut_prefix last_index? ◌==◌
sets_milestone = refl

deactivate_panics_iff_example :
    (handle_deactivate_line [] 2 ≡ none) ↔ ((is_commented [] ≡ false) × (length {A = ℕ} [] < 2))
deactivate_panics_iff_example = deactivate_panics_iff [] 2

plugin_is_plain : is_commented plugin_line ≡ false
unfolding is_commented has_prefix trim_left cut_prefix
plugin_is_plain = refl

plugin_is_free : last_index? plugin_line milestone_property ≡ none
unfolding last_index? has_prefix cut_prefix
plugin_is_free = refl

activate-deactivate_example :
    handle_activate_line commented_plugin (codes "v2") 2 ≡ some (plugin_line, true)
activate-deactivate_example =
    activate-deactivate plugin_line commented_plugin (codes "v2") 2 refl plugin_is_plain
      plugin_is_free deactivates_plugin

keeps_milestone : handle_activate_line milestone_line (codes "v1") 0 ≡ some (milestone_line, false)
unfolding handle_activate_line uncomment set_milestone is_commented split_at has_prefix trim_left
    cut_prefix last_index? ◌==◌
keeps_milestone = refl

milestone_is_plain : is_commented milestone_line ≡ false
unfolding is_commented has_prefix trim_left cut_prefix
milestone_is_plain = refl

milestone_is_found : last_index? milestone_line milestone_property ≡ some 0
unfolding last_index? has_prefix cut_prefix
milestone_is_found = refl

find_sections_iff_example :
    (find_sections_in_file release config_lines ≡ ok true)
    ↔ (Alternates (marks release config_lines) × (true ≡ is_nonempty (marks release config_lines)))
find_sections_iff_example = find_sections_iff release config_lines true

abbrev rewritten : Rewrite
rewritten = record {
  changes = true;
  new_lines = codes "a" ∷ start_line ∷ codes "milestone: v2" ∷ end_line ∷ codes "b" ∷ [];
  change_lines = false;
  offset = 0;
}

rewrites : rewrite_lines release (codes "v2") initial_rewrite config_lines ≡ ok rewritten
unfolding rewrite_lines rewrite_line handle_line handle_activate_line uncomment set_milestone
    is_commented split_at has_prefix trim_left cut_prefix last_index? index? marker trim
    start_of_section end_of_section ◌==◌
rewrites = refl

starts_outside : in_section release false [] ≡ false
unfolding in_section
starts_outside = refl

outside_line_kept_example :
    (xs ys : List Text) × (rewritten.new_lines ≡ xs ++ codes "a" ∷ ys) × (length xs ≡ 0)
outside_line_kept_example =
    outside_line_kept release (codes "v2") [] (codes "a")
      (start_line ∷ milestone_line ∷ end_line ∷ codes "b" ∷ []) rewritten rewrites
      (inl starts_outside)

abbrev milestones : List Milestone
milestones =
    record { title = codes "v1"; state = codes "closed" }
    ∷ record { title = codes "v2"; state = open_state }
    ∷ []

small_lines : All IsLine (codes "a" ∷ codes "b" ∷ [])
unfolding drop_cr
small_lines = (
  ((λ e. ground arith, tt), refl, omega arith),
  (((λ e. ground arith, tt), refl, omega arith), tt),
)

scan-print_lines_example :
    scan_lines (print_lines (codes "a" ∷ codes "b" ∷ [])) ≡ codes "a" ∷ codes "b" ∷ []
scan-print_lines_example = scan-print_lines (codes "a") (codes "b" ∷ []) small_lines

-- A clone whose one file is the configuration above.
abbrev fake_files : Files (Unit {0}) Text
fake_files = record {
  read_file = λ path w. (ok (print_lines config_lines), w);
  write_file = λ path content w. (ok tt, w);
  list_milestones = λ org repo w. (ok milestones, w);
  compile = λ pattern. ok (λ t. true);
}

abbrev some_options : Options
some_options = record {
  upstream_repo = codes "org/repo";
  upstream_branch = codes "master";
  milestone_repo = codes "org/repo";
  milestone_pattern = codes "v";
  section_identifier = release;
  files_with_sections = codes "plugins.yaml" ∷ [];
  prow_job_name = codes "job";
  labels_override = none;
}

abbrev final_calls : List Call
final_calls =
    (run_milestone_activator fake_files fake_remote upstream some_options
      (record { world = tt; calls = [] })).1.calls
