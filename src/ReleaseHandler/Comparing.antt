-- ===== src/ReleaseHandler/Comparing.antt =====
-- How compareVersions of prow/cmd/release-handler/releasehandler.go comes to its classification.
use ci_infra_gardener.Prelude.{
  ◌≡◌, ap, ◌∙◌, sym, inl, inr, ◌∷◌, arith, Trace, Result, ok, Result-cases,
}
use ci_infra_gardener.ReleaseHandler.{
  compare_version_branch, Remote, Options, Call, checked_out_new, reset, HandlerError,
  VersionClassification, previous_commit, change_of, classify_version_change, get_semver_from_file,
  compare_versions,
}

module _ {W E V : Type 0} (remote : Remote W E V) (options : Options) where
  -- The state once the file was read for the first time, and the worlds once the branch for the comparison
  -- was made and once it was reset to the previous commit.
  abbrev pub after_read : Trace W Call → Trace W Call
  after_read s = (get_semver_from_file remote options.version_file_path s).1

  abbrev pub branched_world : Trace W Call → W
  branched_world s = (remote.checkout_new_branch compare_version_branch (after_read s).world).1

  abbrev pub reset_world : Trace W Call → W
  reset_world s = (remote.reset_hard previous_commit (branched_world s)).1

  -- The state in which the previous version is read.
  abbrev pub before_reset : Trace W Call → Trace W Call
  before_reset s = record {
    world = reset_world s;
    calls = reset previous_commit ∷ checked_out_new compare_version_branch ∷ (after_read s).calls;
  }

  -- How a classification comes about: the file's version at one state, and its version after a reset to
  -- the previous commit.
  pub record IsComparison (current previous : V) (s : Trace W Call) : Type 0 where
    pub reads_current : (get_semver_from_file remote options.version_file_path s).0 ≡ ok current
    pub branched :
        (remote.checkout_new_branch compare_version_branch (after_read s).world).0 ≡ ok tt
    pub was_reset : (remote.reset_hard previous_commit (branched_world s)).0 ≡ ok tt
    pub reads_previous :
        (get_semver_from_file remote options.version_file_path (before_reset s)).0 ≡ ok previous

  compared :
      (s s' : Trace W Call) (c : VersionClassification V)
      → compare_versions remote options s ≡ (ok c, s')
      → IsComparison c.current_version c.previous_version s
        × (change_of remote c.current_version c.previous_version ≡ ok c.version_change)
  unfolding compare_versions classify_version_change
  compared s s' c h =
      let r = get_semver_from_file remote options.version_file_path s in
      let n = remote.checkout_new_branch compare_version_branch (after_read s).world in
      let d = remote.reset_hard previous_commit (branched_world s) in
      let q = get_semver_from_file remote options.version_file_path (before_reset s) in
      elim (Result-cases r.0) [
        | inr (e, bad) ↦ ground (arith, bad)
        | inl (current, known) ↦ elim (Result-cases q.0) [
          | inr (e, bad) ↦ ground (arith, known, bad)
          | inl (previous, known_previous) ↦
              let same_current : c.current_version ≡ current =
                ground (arith, known, known_previous) in
              let same_previous : c.previous_version ≡ previous =
                ground (arith, known, known_previous) in
              (
                record {
                  reads_current = known ∙ ap ok (sym same_current);
                  branched = ground (arith, known, known_previous);
                  was_reset = ground (arith, known, known_previous);
                  reads_previous = known_previous ∙ ap ok (sym same_previous);
                },
                ground (arith, known, known_previous),
              )
        ]
      ]

  pub compared_at :
      (s : Trace W Call) (c : VersionClassification V)
      → (compare_versions remote options s).0 ≡ ok c
      → IsComparison c.current_version c.previous_version s
        × (change_of remote c.current_version c.previous_version ≡ ok c.version_change)
  compared_at s c done =
      let t = (compare_versions remote options s).1 in
      compared s t c (ap (λ (x : Result (HandlerError E) (VersionClassification V)). (x, t)) done)
