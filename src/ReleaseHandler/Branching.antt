-- ===== src/ReleaseHandler/Branching.antt =====
-- When the release handler pushes a branch, and how it ends.
use ci_infra_gardener.Prelude.{
  ◌≡◌, ap, ◌∙◌, subst, ◌⊎◌, inl, inr, Bool, List, true, false, [], arith, Text, codes, contains,
  Has, Trace, ok, Result-cases, Bool-cases,
}
use ci_infra_gardener.ReleaseHandler.{
  Remote, Options, Call, pushed, VersionClassification, previous_commit,
  prepare_new_major_minor_version, change_of, get_semver_from_file, check_out_base,
  is_version_file_updated, compare_versions, release_branch_name, push_release_branch,
  create_release_branch, handle_version_change, handle_update, ensure_client, run,
}
use ci_infra_gardener.ReleaseHandler.Comparing.{IsComparison, compared_at}

module _ {W E V : Type 0} (remote : Remote W E V) (options : Options) where
  pushed-compare_versions :
      (s : Trace W Call) (branch : Text)
      → Has (pushed branch) (compare_versions remote options s).1.calls
      → Has (pushed branch) s.calls
  unfolding compare_versions get_semver_from_file
  pushed-compare_versions s branch m = ground arith

  pushed-create_release_branch :
      (version : V) (s : Trace W Call) (branch : Text)
      → Has (pushed branch) (create_release_branch remote options version s).1.calls
      → Has (pushed branch) s.calls
        ⊎ ((options.dry_run ≡ false) × (branch ≡ release_branch_name remote options version))
  unfolding create_release_branch push_release_branch
  pushed-create_release_branch version s branch m = ground arith

  pushed-handle_version_change :
      (c : VersionClassification V) (s : Trace W Call) (branch : Text)
      → Has (pushed branch) (handle_version_change remote options c s).1.calls
      → Has (pushed branch) s.calls
        ⊎ ((options.dry_run ≡ false)
            × (c.version_change ≡ prepare_new_major_minor_version)
            × (branch ≡ release_branch_name remote options c.previous_version))
  unfolding handle_version_change
  pushed-handle_version_change c s branch m =
      ground (arith, pushed-create_release_branch c.previous_version s branch)

  -- The state once the changes of the last commit were listed.
  abbrev pub listed : Trace W Call → Trace W Call
  listed s = record {
    world = (remote.diff previous_commit (codes "HEAD") s.world).1;
    calls = s.calls;
  }

  -- Why a branch may be pushed from a state on, in which the base commit is checked out.
  pub record IsReleaseBranch (s : Trace W Call) (branch : Text) : Type 0 where
    pub changes : List Text
    pub current : V
    pub previous : V
    pub changed : (remote.diff previous_commit (codes "HEAD") s.world).0 ≡ ok changes
    pub updated : contains changes options.version_file_path ≡ true
    pub compared_versions : IsComparison remote options current previous (listed s)
    pub next : change_of remote current previous ≡ ok prepare_new_major_minor_version
    pub named : branch ≡ release_branch_name remote options previous
    pub wet : options.dry_run ≡ false

  pushed-handle_update :
      (s : Trace W Call) (branch : Text)
      → Has (pushed branch) (handle_update remote options s).1.calls
      → Has (pushed branch) s.calls ⊎ IsReleaseBranch s branch
  unfolding handle_update is_version_file_updated
  pushed-handle_update s branch m =
      let d = remote.diff previous_commit (codes "HEAD") s.world in
      let s1 = listed s in
      let c = compare_versions remote options s1 in
      elim (Result-cases d.0) [
        | inr (e, bad) ↦ inl (ground (arith, bad))
        | inl (changes, good) ↦ elim (Bool-cases (contains changes options.version_file_path)) [
          | inr same ↦ inl (ground (arith, good, same))
          | inl updated ↦ elim (Result-cases c.0) [
            | inr (e, bad) ↦
                let e : (handle_update remote options s).1.calls ≡ c.1.calls =
                  ground (arith, good, updated, bad) in
                inl (pushed-compare_versions s1 branch (subst (Has (pushed branch)) e m))
            | inl (v, done) ↦
                let e : (handle_update remote options s).1.calls
                    ≡ (handle_version_change remote options v c.1).1.calls =
                  ground (arith, good, updated, done) in
                elim (pushed-handle_version_change v c.1 branch (subst (Has (pushed branch)) e m)) [
                  | inl k ↦ inl (pushed-compare_versions s1 branch k)
                  | inr (wet, change, named) ↦ inr (record {
                    current = v.current_version;
                    previous = v.previous_version;
                    changes = changes;
                    changed = good;
                    updated = updated;
                    compared_versions = (compared_at remote options s1 v done).0;
                    next = (compared_at remote options s1 v done).1 ∙ ap ok change;
                    named = named;
                    wet = wet;
                  })
                ]
          ]
        ]
      ]

  pushed-ensure_client :
      (has_client : Bool) (world : W) (branch : Text)
      → Has
          (pushed branch)
          (ensure_client remote options has_client (record { world = world; calls = [] })).1.calls
      → ⊥
  unfolding ensure_client
  pushed-ensure_client has_client world branch m = ground arith

  pushed-check_out_base :
      (has_client : Bool) (world : W) (branch : Text)
      → Has
          (pushed branch)
          (check_out_base remote options
            (ensure_client remote options has_client
              (record { world = world; calls = [] })).1).1.calls
      → ⊥
  unfolding check_out_base ensure_client
  pushed-check_out_base has_client world branch m = ground arith

  -- The state of a run once the base commit was checked out.
  abbrev pub based_state : (has_client : Bool) → W → Trace W Call
  based_state has_client world =
      (check_out_base remote options
        (ensure_client remote options has_client (record { world = world; calls = [] })).1).1

  -- A run pushes no other branch than the release branch of the version that the file has after a reset to
  -- the previous commit, and only if the last commit changed the file, the version that was read before the
  -- reset is the next major or minor one, and it is no dry run.
  pub run_pushes-IsReleaseBranch :
      (has_client : Bool) (world : W) (branch : Text)
      → Has
          (pushed branch)
          (run remote options has_client (record { world = world; calls = [] })).1.calls
      → IsReleaseBranch (based_state has_client world) branch
  unfolding run
  run_pushes-IsReleaseBranch has_client world branch m =
      let start : Trace W Call = record { world = world; calls = [] } in
      let c = ensure_client remote options has_client start in
      let b = check_out_base remote options c.1 in
      elim (Result-cases c.0) [
        | inr (e, bad) ↦
            let same : (run remote options has_client start).1.calls ≡ c.1.calls =
              ground (arith, bad) in
            absurd
              (pushed-ensure_client has_client world branch (subst (Has (pushed branch)) same m))
        | inl (_, cloned_it) ↦ elim (Result-cases b.0) [
          | inr (e, bad) ↦
              let same : (run remote options has_client start).1.calls ≡ b.1.calls =
                ground (arith, cloned_it, bad) in
              absurd
                (pushed-check_out_base has_client world branch (subst (Has (pushed branch)) same m))
          | inl (_, based) ↦
              let e : (run remote options has_client start).1.calls
                  ≡ (handle_update remote options b.1).1.calls =
                ground (arith, cloned_it, based) in
              elim (pushed-handle_update b.1 branch (subst (Has (pushed branch)) e m)) [
                | inl k ↦ absurd (pushed-check_out_base has_client world branch k)
                | inr reason ↦ reason
              ]
        ]
      ]
