-- ===== src/ReleaseHandler.antt =====
-- prow/cmd/release-handler/releasehandler.go: a release branch is pushed when the version file turns to
-- the next major or minor version. Git, the file system and semver are the interface `Remote` over a
-- world `W` with errors `E` and versions `V`.
pub mod Classifying
pub mod Comparing
pub mod Branching
mod Examples
use ci_infra_gardener.Prelude.{
  ℕ, Bool, true, false, not, List, [], ◌∷◌, ◌++◌, Text, codes, ◌==◌, trim, contains, decimal, ltb,
  if◌then◌else◌, Exec, Trace, Result, ok, err, map_err, pure, raise, observe, perform, wrap, ◌>>=◌,
  ◌>>◌, map,
}

-- `greater a b` is `a.Compare(b) == 1`; `new_version` is semver.NewVersion.
pub record Remote (W E V : Type 0) : Type 0 where
  pub greater : V → V → Bool
  pub major : V → ℕ
  pub minor : V → ℕ
  pub patch : V → ℕ
  pub prerelease : V → Text
  pub new_version : Text → Result E V
  pub client_for : (org repo : Text) → Exec W E (Unit {0})
  pub diff : (base head : Text) → Exec W E (List Text)
  pub read_lines : (path : Text) → Exec W E (List Text)
  pub checkout : Text → Exec W E (Unit {0})
  pub checkout_new_branch : Text → Exec W E (Unit {0})
  pub reset_hard : Text → Exec W E (Unit {0})
  pub branch_exists : Text → W → Bool
  pub push_to_central : (branch : Text) (force : Bool) → Exec W E (Unit {0})

pub record Options : Type 0 where
  pub org : Text
  pub repo : Text
  pub base_sha : Text
  pub release_branch_prefix : Text
  pub version_file_path : Text
  pub dry_run : Bool

pub data VersionChange : Type 0 where
  prepare_new_major_minor_version prepare_new_patch_version new_release next_dev_cycle :
      VersionChange

pub data HandlerError (E : Type 0) : Type 0 where
  plain invalid_semver : E → HandlerError E
  version_file_empty version_does_not_increase version_not_supported : HandlerError E

pub data Call : Type 0 where
  cloned : Call
  checked_out checked_out_new reset : Text → Call
  pushed : (branch : Text) → Call

abbrev pub compare_version_branch : Text
compare_version_branch = codes "release-handler-compare-versions"

abbrev pub previous_commit : Text
previous_commit = codes "HEAD~1"

pub record VersionClassification (V : Type 0) : Type 0 where
  pub current_version : V
  pub previous_version : V
  pub version_change : VersionChange

module _ {W E V : Type 0} (remote : Remote W E V) where
  open remote use {greater, major, minor, patch, prerelease}

  abbrev Action : Type 0 → Type 0
  Action A = Exec (Trace W Call) (HandlerError E) A

  abbrev changing : {A : Type 0} → Call → Exec W E A → Action A
  changing c m = wrap plain (perform c m)

  unfoldable pub change_of : (current previous : V) → Result (HandlerError E) VersionChange
  change_of current previous =
      if not (greater current previous)
      then err version_does_not_increase
      else if prerelease current == []
      then ok new_release
      else if prerelease previous == []
      then ok next_dev_cycle
      else if ltb (major previous) (major current)
      then ok prepare_new_major_minor_version
      else if ltb (minor previous) (minor current)
      then ok prepare_new_major_minor_version
      else if ltb (patch previous) (patch current)
      then ok prepare_new_patch_version
      else err version_not_supported

  unfoldable pub classify_version_change :
      (current previous : V) → Result (HandlerError E) (VersionClassification V)
  classify_version_change current previous = elim (change_of current previous) [
    | ok c ↦
        ok (record { current_version = current; previous_version = previous; version_change = c })
    | err e ↦ err e
  ]

  -- getSemverFromFile after the scan: the first line, trimmed.
  unfoldable pub version_of_lines : List Text → Result (HandlerError E) V
  version_of_lines [] = err version_file_empty
  version_of_lines (line ∷ lines) = map_err invalid_semver (remote.new_version (trim line))

  unfoldable pub get_semver_from_file : Text → Action V
  unfolding version_of_lines
  get_semver_from_file path = do
    lines ← wrap plain (observe (remote.read_lines path))
    λ s. (version_of_lines lines, s)

module _ {W E V : Type 0} (remote : Remote W E V) (options : Options) where
  unfoldable pub check_out_base : Exec (Trace W Call) (HandlerError E) (Unit {0})
  check_out_base = changing remote (checked_out options.base_sha) (remote.checkout options.base_sha)

  unfoldable pub is_version_file_updated : Exec (Trace W Call) (HandlerError E) Bool
  is_version_file_updated = do
    changes ← wrap plain (observe (remote.diff previous_commit (codes "HEAD")))
    pure (contains changes options.version_file_path)

  unfoldable pub compare_versions : Exec (Trace W Call) (HandlerError E) (VersionClassification V)
  unfolding check_out_base
  compare_versions = do
    current ← get_semver_from_file remote options.version_file_path
    changing remote (checked_out_new compare_version_branch)
        (remote.checkout_new_branch compare_version_branch)
    changing remote (reset previous_commit) (remote.reset_hard previous_commit)
    previous ← get_semver_from_file remote options.version_file_path
    check_out_base
    λ s. (classify_version_change remote current previous, s)

  unfoldable pub release_branch_name : V → Text
  release_branch_name version =
      options.release_branch_prefix
      ++ (codes "v"
          ++ (decimal (remote.major version) ++ (codes "." ++ decimal (remote.minor version))))

  unfoldable pub push_release_branch : Text → Exec (Trace W Call) (HandlerError E) (Unit {0})
  push_release_branch branch =
      if options.dry_run
      then pure tt
      else changing remote (pushed branch) (remote.push_to_central branch false)

  unfoldable pub create_release_branch : V → Exec (Trace W Call) (HandlerError E) (Unit {0})
  create_release_branch version s =
      let branch = release_branch_name version in
      if remote.branch_exists branch s.world
      then pure tt s
      else (do
        changing remote (checked_out_new branch) (remote.checkout_new_branch branch)
        changing remote (reset previous_commit) (remote.reset_hard previous_commit)
        push_release_branch branch)
          s

  unfoldable pub handle_version_change :
      VersionClassification V → Exec (Trace W Call) (HandlerError E) (Unit {0})
  handle_version_change c = elim c.version_change [
    | prepare_new_major_minor_version ↦ create_release_branch c.previous_version
    | _ ↦ pure tt
  ]

  unfoldable pub ensure_client :
      (has_client : Bool) → Exec (Trace W Call) (HandlerError E) (Unit {0})
  ensure_client true = pure tt
  ensure_client false = changing remote cloned (remote.client_for options.org options.repo)

  unfoldable pub handle_update : Exec (Trace W Call) (HandlerError E) (Unit {0})
  handle_update = do
    updated ← is_version_file_updated
    if not updated
        then pure tt
        else do classification ← compare_versions; handle_version_change classification

  -- `has_client` says whether a git client is set already. A failing checkout of the base ends the run
  -- without an error.
  unfoldable pub run : (has_client : Bool) → Exec (Trace W Call) (HandlerError E) (Unit {0})
  run has_client = do
    ensure_client has_client
    λ s.
        let (checked, s') = check_out_base s in
        elim checked [ ok _ ↦ handle_update s' | err _ ↦ (ok tt, s') ]
