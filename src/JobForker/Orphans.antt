-- ===== src/JobForker/Orphans.antt =====
-- What forkJobs and removeOrphanedJobs of prow/cmd/job-forker/forking.go do to files.
use ci_infra_gardener.Prelude.{
  ◌≡◌, refl, ap, ◌∙◌, ◌⊎◌, inl, inr, Bool, true, false, not, ◌&&◌, ◌||◌, List, [], ◌∷◌, arith, Text,
  Trace, Result, ok, keep, any, if◌then◌else◌, Bool-cases, Result-cases,
}
use ci_infra_gardener.JobForker.{is_yaml, belongs_to, has_branch}
use ci_infra_gardener.JobForker.Forking.{
  Files, Generated, Call, made_directory, created, removed, wrote, ForkError, is_nil, generate_all,
  payload_of, target_file, write_payload, fork_jobs, remove_if_orphaned, remove_orphans,
}

-- A file of the repository, by its name, for none of its branches.
abbrev pub is_orphan : (repository : Text) → List Text → Text → Bool
is_orphan repository branches file =
    is_yaml file && (belongs_to repository file && not (has_branch repository branches file))

-- The removals of files, behind earlier calls; the latest first.
abbrev pub removals : List Text → List Call → List Call
removals [] calls = calls
removals (file ∷ files) calls = removals files (removed file ∷ calls)

module _ {W E S : Type 0} (files : Files W E S) where
  remove_if_orphaned_lem :
      (repository : Text) (branches : List Text) (file : Text) (s s' : Trace W Call) (b : Bool)
      → remove_if_orphaned files repository branches file s ≡ (ok b, s')
      → (b ≡ is_orphan repository branches file)
        × (s'.calls
            ≡ (if is_orphan repository branches file then removed file ∷ s.calls else s.calls))
  unfolding remove_if_orphaned
  remove_if_orphaned_lem repository branches file s s' b h = (ground (arith, h), ground (arith, h))

  -- If the removal of orphans ends without an error, it has removed exactly the orphans of the listed
  -- files, in order, and reports a change exactly if there was one or there was a change before.
  pub remove_orphans_lem :
      (changes : Bool) (repository : Text) (branches forked_files : List Text) (s s' : Trace W Call)
      (b : Bool)
      → remove_orphans files changes repository branches forked_files s ≡ (ok b, s')
      → (s'.calls ≡ removals (keep (is_orphan repository branches) forked_files) s.calls)
        × (b ≡ (changes || any (is_orphan repository branches) forked_files))
  unfolding remove_orphans keep any
  remove_orphans_lem changes repository branches [] s s' b h =
      (ground (arith, h), ground (arith, h))
  remove_orphans_lem changes repository branches (file ∷ rest) s s' b h =
      let r = remove_if_orphaned files repository branches file s in
      elim (Result-cases r.0) [
        | inr (e, bad) ↦ ground (arith, bad)
        | inl (gone, done) ↦
            let (now, calls) =
              remove_if_orphaned_lem repository branches file s r.1 gone
                (ap (λ (x : Result (ForkError E) Bool). (x, r.1)) done) in
            let (later, changed) =
              remove_orphans_lem (changes || gone) repository branches rest r.1 s' b
                (ground (arith, done, h)) in
            elim (Bool-cases (is_orphan repository branches file)) [
              | inl orphan ↦ (
                later
                    ∙ rw orphan (
                        ap (removals (keep (is_orphan repository branches) rest))
                          (calls ∙ ground (arith, orphan))),
                ground (arith, changed, now, orphan),
              )
              | inr kept ↦ (
                later
                    ∙ rw kept (
                        ap (removals (keep (is_orphan repository branches) rest))
                          (calls ∙ ground (arith, kept))),
                ground (arith, changed, now, kept),
              )
            ]
      ]

  -- The world once the jobs were read.
  abbrev pub read_world : (repository branch : Text) (filenames : List Text) → Trace W Call → W
  read_world repository branch filenames s =
      (generate_all files repository branch filenames s).1.world

  calls-generate_all :
      (repository branch : Text) (filenames : List Text) (s : Trace W Call)
      → (generate_all files repository branch filenames s).1.calls ≡ s.calls
  unfolding generate_all
  calls-generate_all repository branch [] s = refl
  calls-generate_all repository branch (file ∷ filenames) s =
      let j = files.read_job_config file s.world in
      let s1 : Trace W Call = record { world = j.1; calls = s.calls } in
      elim (Result-cases j.0) [
        | inr (e, bad) ↦ ground (arith, bad)
        | inl (c, good) ↦
            let rest = generate_all files repository branch filenames s1 in
            let same = calls-generate_all repository branch filenames s1 in
            elim (Result-cases rest.0) [
              | inr (e, bad) ↦ ground (arith, good, bad, same)
              | inl (g, done) ↦ ground (arith, good, done, same)
            ]
      ]

  -- The branch's file was made, opened and written without an error, with the jobs that are generated from
  -- the given files for the branch.
  pub record IsWritten (repository branch target_dir : Text) (filenames : List Text)
      (s s' : Trace W Call) : Type 0 where
    pub jobs : Generated S
    pub content : Text
    pub generated : (generate_all files repository branch filenames s).0 ≡ ok jobs
    pub marshalled : files.marshal (payload_of repository jobs) ≡ ok content
    pub made :
        (files.make_directory target_dir (read_world repository branch filenames s)).0 ≡ ok tt
    pub opened :
        (files.create
          (target_file target_dir repository branch)
          (files.make_directory target_dir (read_world repository branch filenames s)).1).0
        ≡ ok tt
    pub written :
        (files.write
          (target_file target_dir repository branch)
          content
          (files.create
            (target_file target_dir repository branch)
            (files.make_directory target_dir (read_world repository branch filenames s)).1).1).0
        ≡ ok tt
    pub traced :
        s'.calls
        ≡ wrote (target_file target_dir repository branch) content
          ∷ created (target_file target_dir repository branch)
          ∷ made_directory target_dir
          ∷ s.calls

  -- If forking for a branch ends without an error, either it reports no change and has changed no file, or
  -- it reports a change, the branch's file was not there, and that file is created, once, and the jobs that
  -- are generated for the branch are written to it, marshalled, without an error.
  pub fork_jobs_lem :
      (repository branch target_dir : Text) (filenames : List Text) (s s' : Trace W Call) (b : Bool)
      → fork_jobs files repository branch target_dir filenames s ≡ (ok b, s')
      → let path = target_file target_dir repository branch in
        ((b ≡ false) × (s'.calls ≡ s.calls))
        ⊎ ((b ≡ true)
            × (files.exists path s.world ≡ false)
            × IsWritten repository branch target_dir filenames s s')
  unfolding fork_jobs write_payload
  fork_jobs_lem repository branch target_dir filenames s s' b h =
      let path = target_file target_dir repository branch in
      let g = generate_all files repository branch filenames s in
      let same = calls-generate_all repository branch filenames s in
      elim (Bool-cases (files.exists path s.world)) [
        | inl there ↦ inl (ground (arith, there, h), ground (arith, there, h))
        | inr new ↦ elim (Result-cases g.0) [
          | inr (e, bad) ↦ ground (arith, new, bad, h)
          | inl (jobs, generated) ↦
              elim (Bool-cases
                (is_nil jobs.presubmits && is_nil jobs.postsubmits && is_nil jobs.periodics)) [
                  | inl none ↦ inl (
                    ground (arith, new, generated, none, h),
                    ground (arith, new, generated, none, h, same),
                  )
                  | inr some_jobs ↦
                      elim (Result-cases (files.marshal (payload_of repository jobs))) [
                        | inr (e, bad) ↦ ground (arith, new, generated, some_jobs, bad, h)
                        | inl (content, marshalled) ↦ inr (
                          ground (arith, new, generated, some_jobs, marshalled, h),
                          new,
                          record {
                            jobs = jobs;
                            content = content;
                            generated = generated;
                            marshalled = marshalled;
                            made = ground (arith, new, generated, some_jobs, marshalled, h);
                            opened = ground (arith, new, generated, some_jobs, marshalled, h);
                            written = ground (arith, new, generated, some_jobs, marshalled, h);
                            traced = ground (arith, new, generated, some_jobs, marshalled, h, same);
                          },
                        )
                      ]
                ]
        ]
      ]
