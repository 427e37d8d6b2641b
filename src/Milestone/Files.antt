-- ===== src/Milestone/Files.antt =====
-- The files of a run: handleMilestoneSection, updateFiles and runMilestoneActivator of
-- prow/cmd/milestone-activator/activator.go. The file system and GitHub are interfaces over a world `W`
-- with errors `E`; a path stands for its place in the clone.
pub mod Writing
pub mod Needing
use ci_infra_gardener.Prelude.{
  Bool, true, false, not, ◌||◌, Option, none, some, List, [], ◌∷◌, ◌++◌, Text, codes, if◌then◌else◌,
  Exec, Trace, Result, ok, err, map_err, pure, raise, observe, perform, wrap, embed, ◌>>=◌, ◌>>◌,
}
use ci_infra_gardener.Interactor
use ci_infra_gardener.Interactor.Pushing.{push_changes}
use ci_infra_gardener.Milestone.Sections.{
  SectionError, Rewrite, initial_rewrite, find_sections_in_file, rewrite_lines,
}
use ci_infra_gardener.Milestone.Scanning.{scan_lines, print_lines}
use ci_infra_gardener.Milestone.Choosing.{Milestone, choose_milestone}

pub record Files (W E : Type 0) : Type 0 where
  pub read_file : (path : Text) → Exec W E Text
  pub write_file : (path content : Text) → Exec W E (Unit {0})
  pub list_milestones : (org repo : Text) → Exec W E (List Milestone)
  pub compile : (pattern : Text) → Result E (Text → Bool)

pub data Call : Type 0 where
  wrote : (path content : Text) → Call
  pushing : Interactor.Call → Call

pub data ActivatorError (E : Type 0) : Type 0 where
  plain : E → ActivatorError E
  section : SectionError → ActivatorError E
  more_than_one_milestone : ActivatorError E
  push : Interactor.PushError E → ActivatorError E

pub record Options : Type 0 where
  pub upstream_repo : Text
  pub upstream_branch : Text
  pub milestone_repo : Text
  pub milestone_pattern : Text
  pub section_identifier : Text
  pub files_with_sections : List Text
  pub prow_job_name : Text
  pub labels_override : Option (List Text)

-- TargetBranchPrefix
abbrev pub target_branch_prefix : Text
target_branch_prefix = codes "milestone-activator"

module _ {W E : Type 0} (files : Files W E) where
  abbrev pub Action : Type 0 → Type 0
  Action A = Exec (Trace W Call) (ActivatorError E) A

  unfoldable pub scan_file : Text → Action (List Text)
  scan_file path = do
    content ← wrap plain (observe (files.read_file path))
    pure (scan_lines content)

  unfoldable pub write_changes : Text → Rewrite → Action Bool
  write_changes path r =
      if r.changes
      then (do
        wrap plain (
            perform (wrote path (print_lines r.new_lines))
              (files.write_file path (print_lines r.new_lines)))
        pure true)
      else pure false

  unfoldable pub handle_milestone_section : (path section_identifier milestone : Text) → Action Bool
  handle_milestone_section path section_identifier milestone = do
    lines ← scan_file path
    r ← λ s. (map_err section (rewrite_lines section_identifier milestone initial_rewrite lines), s)
    write_changes path r

  unfoldable pub update_file : (path section_identifier milestone : Text) → Action Bool
  update_file path section_identifier milestone = do
    lines ← scan_file path
    sections_found ← λ s. (map_err section (find_sections_in_file section_identifier lines), s)
    if sections_found
        then handle_milestone_section path section_identifier milestone
        else pure false

  unfoldable pub update_files :
      (changes : Bool) → List Text → (section_identifier milestone : Text) → Action Bool
  update_files changes [] section_identifier milestone = pure changes
  update_files changes (path ∷ paths) section_identifier milestone = do
    file_changed ← update_file path section_identifier milestone
    update_files (changes || file_changed) paths section_identifier milestone

  unfoldable pub get_open_milestone : (org repo milestone_pattern : Text) → Action Text
  get_open_milestone org repo milestone_pattern = do
    milestones ← wrap plain (observe (files.list_milestones org repo))
    matches ← λ s. (map_err plain (files.compile milestone_pattern), s)
    λ s. (
      elim (choose_milestone matches [] milestones) [
        | none ↦ err more_than_one_milestone
        | some title ↦ ok title
      ],
      s,
    )

module _ {W E : Type 0} (files : Files W E) (remote : Interactor.Remote W E) where
  unfoldable pub push_updates : Interactor.Repository → Options → Action files (Unit {0})
  push_updates upstream_repo o = wrap push (
      embed pushing (
        push_changes remote upstream_repo o.upstream_repo o.upstream_branch
          (target_branch_prefix ++ (codes "-" ++ o.prow_job_name))
          (codes "Update milestone configuration")
          (codes "Milestone section update created by prow job `" ++ (o.prow_job_name ++ codes "`"))
          o.labels_override))

  unfoldable pub run_milestone_activator : Interactor.Repository → Options → Action files (Unit {0})
  run_milestone_activator upstream_repo o = do
    names ← λ s. (map_err plain (remote.split_repo_name o.milestone_repo), s)
    milestone ← get_open_milestone files names.0 names.1 o.milestone_pattern
    changes ← update_files files false o.files_with_sections o.section_identifier milestone
    if changes then push_updates upstream_repo o else pure tt
