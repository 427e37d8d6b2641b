-- ===== src/JobForker.antt =====
-- prow/cmd/job-forker/forking.go: jobs with the fork annotation are copied for each release branch, and
-- copies for branches that are gone are removed. Of a job only the fields that forking reads or sets are
-- named; `S` is all the rest.
pub mod Generating
pub mod Forking
pub mod Orphans
pub mod Removing
mod Examples
use ci_infra_gardener.Prelude.{
  ℕ, ◌-◌, suc, Bool, true, false, not, ◌||◌, Option, none, some, List, [], ◌∷◌, ◌++◌, Text, codes,
  ◌==◌, any, last_index?, replace_byte, has_prefix, drop, length, if◌then◌else◌, or_else,
}
use ci_infra_gardener.Prelude.Sets.{lookup, put, delete}

abbrev pub fork_annotation : Text
fork_annotation = codes "fork-per-release"

abbrev pub forked_annotation : Text
forked_annotation = codes "created-by-job-forker"

abbrev pub set_true : Text
set_true = codes "true"

-- A presubmit or a postsubmit.
pub record Job (S : Type 0) : Type 0 where
  pub name : Text
  pub annotations : List (Text × Text)
  pub branches : List Text
  pub skip_branches : List Text
  pub spec : S

-- A reference of a periodic, with what prow's OrgRepoString answers for it.
pub record ExtraRef : Type 0 where
  pub org_repo : Text
  pub base_ref : Text

pub record Periodic (S : Type 0) : Type 0 where
  pub name : Text
  pub annotations : List (Text × Text)
  pub extra_refs : List ExtraRef
  pub spec : S

pub record JobConfig (S : Type 0) : Type 0 where
  pub presubmits : List (Text × List (Job S))
  pub postsubmits : List (Text × List (Job S))
  pub periodics : List (Periodic S)

-- strings.ReplaceAll of a slash, and of a dot, by a dash
unfoldable pub create_target_file_name : (repository branch : Text) → Text
create_target_file_name repository branch =
    replace_byte repository b'/' b'-'
    ++ (codes "-" ++ (replace_byte branch b'.' b'-' ++ codes ".yaml"))

unfoldable pub is_to_fork : List (Text × Text) → Bool
is_to_fork annotations = or_else (lookup fork_annotation annotations) [] == set_true

unfoldable pub mark_forked : List (Text × Text) → List (Text × Text)
mark_forked annotations = put forked_annotation set_true (delete fork_annotation annotations)

unfoldable pub forked_name : (name branch : Text) → Text
forked_name name branch = name ++ (codes "-" ++ replace_byte branch b'.' b'-')

abbrev pub jobs_of : {J : Type 0} → List (Text × List J) → Text → List J
jobs_of jobs repository = or_else (lookup repository jobs) []

unfoldable pub set_base_ref : (repository branch : Text) → ExtraRef → ExtraRef
set_base_ref repository branch ref =
    if ref.org_repo == repository then record ref { base_ref = branch } else ref

unfoldable pub set_base_refs : (repository branch : Text) → List ExtraRef → List ExtraRef
unfolding set_base_ref
set_base_refs repository branch [] = []
set_base_refs repository branch (ref ∷ refs) =
    set_base_ref repository branch ref ∷ set_base_refs repository branch refs

unfoldable pub is_related : (repository : Text) → List ExtraRef → Bool
is_related repository refs = any (λ ref. ref.org_repo == repository) refs

module _ {S : Type 0} where
  unfoldable pub fork_job : Text → Job S → Job S
  fork_job branch j = record j {
    name = forked_name j.name branch;
    annotations = mark_forked j.annotations;
    branches = branch ∷ [];
    skip_branches = [];
  }

  -- The loop of generatePresubmits, and of generatePostsubmits.
  unfoldable pub fork_all : Text → List (Job S) → List (Job S)
  unfolding fork_job
  fork_all branch [] = []
  fork_all branch (j ∷ js) =
      let rest = fork_all branch js in
      if is_to_fork j.annotations then fork_job branch j ∷ rest else rest

  unfoldable pub generate_presubmits : JobConfig S → (repository branch : Text) → List (Job S)
  generate_presubmits j repository branch = fork_all branch (jobs_of j.presubmits repository)

  unfoldable pub generate_postsubmits : JobConfig S → (repository branch : Text) → List (Job S)
  generate_postsubmits j repository branch = fork_all branch (jobs_of j.postsubmits repository)

  unfoldable pub fork_periodic : (repository branch : Text) → Periodic S → Periodic S
  fork_periodic repository branch p = record p {
    name = forked_name p.name branch;
    annotations = mark_forked p.annotations;
    extra_refs = set_base_refs repository branch p.extra_refs;
  }

  unfoldable pub fork_periodics : (repository branch : Text) → List (Periodic S) → List (Periodic S)
  unfolding fork_periodic is_related
  fork_periodics repository branch [] = []
  fork_periodics repository branch (p ∷ ps) =
      let rest = fork_periodics repository branch ps in
      if not (is_to_fork p.annotations)
      then rest
      else if not (is_related repository p.extra_refs)
      then rest
      else fork_periodic repository branch p ∷ rest

  unfoldable pub generate_periodics : JobConfig S → (repository branch : Text) → List (Periodic S)
  generate_periodics j repository branch = fork_periodics repository branch j.periodics

-- filepath.Base of a path that does not end in a slash
unfoldable pub base : Text → Text
base path = elim (last_index? path (codes "/")) [ none ↦ path | some i ↦ drop (suc i) path ]

unfoldable pub has_suffix : Text → Text → Bool
has_suffix s suffix = drop (length s - length suffix) s == suffix

-- Is filepath.Ext of the file .yaml or .yml?
unfoldable pub is_yaml : Text → Bool
unfolding has_suffix
is_yaml path = has_suffix path (codes ".yaml") || has_suffix path (codes ".yml")

-- Does removeOrphanedJobs remove the file?
unfoldable pub has_branch : (repository : Text) → List Text → Text → Bool
has_branch repository branches file =
    any (λ branch. base file == create_target_file_name repository branch) branches

unfoldable pub belongs_to : (repository : Text) → Text → Bool
belongs_to repository file = has_prefix (base file) (replace_byte repository b'/' b'-')
