-- ===== src/JobForker/Examples.antt =====
-- Jobs of a repository whose file is forked for a release branch, and the theorems at them.
use ci_infra_gardener.Prelude.{
  ℕ, ◌≡◌, refl, ◌⊎◌, true, false, ◌||◌, List, [], ◌∷◌, Text, codes, ◌==◌, any, not, ◌↔◌, Has, All,
  Trace, ok, last_index?, has_prefix, cut_prefix, replace_byte,
}
use ci_infra_gardener.Prelude.Sets.{lookup}
use ci_infra_gardener.JobForker.{
  Job, Periodic, fork_annotation, set_true, create_target_file_name, is_to_fork, fork_job, fork_all,
  is_related, fork_periodics, generate_presubmits, generate_postsubmits, generate_periodics, base,
  has_suffix, is_yaml, has_branch, belongs_to,
}
use ci_infra_gardener.JobForker.Generating.{IsForked, fork_periodics-IsForked}
use ci_infra_gardener.JobForker.Forking.{
  Files, Call, removed, target_file, generate_all, write_payload, fork_jobs, remove_if_orphaned,
  remove_orphans, is_nil,
}
use ci_infra_gardener.JobForker.Orphans.{is_orphan, removals, IsWritten, fork_jobs_lem}
use ci_infra_gardener.JobForker.Removing.{IsOrphan, WasRemoved, remove_orphans_iff}

abbrev branch : Text
branch = codes "release-v1.2"

abbrev repository : Text
repository = codes "o/r"

abbrev some_job : Job ℕ
some_job = record {
  name = codes "unit";
  annotations = (fork_annotation, set_true) ∷ [];
  branches = [];
  skip_branches = [];
  spec = 0;
}

abbrev some_periodic : Periodic ℕ
some_periodic = record {
  name = codes "nightly";
  annotations = (fork_annotation, set_true) ∷ [];
  extra_refs = record { org_repo = repository; base_ref = codes "master" } ∷ [];
  spec = 0;
}

abbrev fake_files : Files (Unit {0}) Text ℕ
fake_files = record {
  exists = λ path w. false;
  read_job_config = λ path w. (
    ok (record {
      presubmits = (repository, some_job ∷ []) ∷ [];
      postsubmits = [];
      periodics = some_periodic ∷ [];
    }),
    w,
  );
  marshal = λ c. ok (codes "yaml");
  make_directory = λ path w. (ok tt, w);
  create = λ path w. (ok tt, w);
  write = λ path content w. (ok tt, w);
  list_files = λ directory ignored recursive w. (ok [], w);
  remove = λ path w. (ok tt, w);
  is_not_exist = λ e. false;
}

abbrev start : Trace (Unit {0}) Call
start = record { world = tt; calls = [] }

names_file : create_target_file_name repository branch ≡ codes "o-r-release-v1-2.yaml"
unfolding create_target_file_name replace_byte
names_file = refl

-- The file of a branch of o/r-x is an orphan for o/r, of which it has no branch.
takes_other_file :
    is_orphan repository (branch ∷ []) (codes "forked/o-r-x-release-v1-2.yaml") ≡ true
unfolding is_yaml has_suffix belongs_to has_branch base last_index? has_prefix cut_prefix
    replace_byte any create_target_file_name ◌==◌
takes_other_file = refl

fork_periodics-IsForked_example :
    All (IsForked repository branch) (fork_periodics repository branch (some_periodic ∷ []))
fork_periodics-IsForked_example = fork_periodics-IsForked repository branch (some_periodic ∷ [])

abbrev listed : List Text
listed =
    codes "forked/o-r-release-v1-1.yaml"
    ∷ codes "forked/o-r-release-v1-2.yaml"
    ∷ codes "forked/README.md"
    ∷ []

abbrev cleaned : Trace (Unit {0}) Call
cleaned = record { world = tt; calls = removed (codes "forked/o-r-release-v1-1.yaml") ∷ [] }

removes : remove_orphans fake_files false repository (branch ∷ []) listed start ≡ (ok true, cleaned)
unfolding remove_orphans remove_if_orphaned is_yaml has_suffix belongs_to has_branch base
    last_index? has_prefix cut_prefix replace_byte any create_target_file_name ◌==◌
removes = refl

remove_orphans_iff_example :
    (gone : List Text) × (cleaned.calls ≡ removals gone [])
    × ((file : Text) → Has file gone ↔ (Has file listed × IsOrphan repository (branch ∷ []) file))
    × All (WasRemoved fake_files) gone
    × (true ≡ (false || not (is_nil gone)))
remove_orphans_iff_example =
    remove_orphans_iff fake_files false repository (branch ∷ []) listed start cleaned true removes

abbrev forked : Trace (Unit {0}) Call
forked = (fork_jobs fake_files repository branch (codes "forked") (codes "jobs.yaml" ∷ []) start).1

forks :
    fork_jobs fake_files repository branch (codes "forked") (codes "jobs.yaml" ∷ []) start
    ≡ (ok true, forked)
unfolding fork_jobs generate_all write_payload generate_presubmits generate_postsubmits
    generate_periodics fork_all fork_job fork_periodics is_to_fork is_related any lookup ◌==◌
forks = refl

fork_jobs_lem_example :
    let path = target_file (codes "forked") repository branch in
    ((true ≡ false) × (forked.calls ≡ []))
    ⊎ ((true ≡ true)
        × (fake_files.exists path tt ≡ false)
        × IsWritten fake_files repository branch
            (codes "forked")
            (codes "jobs.yaml" ∷ [])
            start
            forked)
fork_jobs_lem_example =
    fork_jobs_lem fake_files repository branch (codes "forked") (codes "jobs.yaml" ∷ []) start
      forked true forks
