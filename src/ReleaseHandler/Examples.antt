-- ===== src/ReleaseHandler/Examples.antt =====
-- A repository whose version file turns from 1.2.0-dev to 1.3.0-dev, and the theorems on the release
-- handler at it. A version is here its minor number.
use ci_infra_gardener.Prelude.{
  ℕ, zero, suc, ◌<◌, ◌≡◌, ◌≢◌, refl, ◌↔◌, ◌⊎◌, inl, true, false, List, [], ◌∷◌, arith, Text, codes,
  ◌==◌, any, ltb, contains, decimal, digits_from, trim, trim_left, Has, Trace, ok,
}
use ci_infra_gardener.ReleaseHandler.{
  Remote, Options, Call, pushed, prepare_new_major_minor_version, change_of,
  classify_version_change, version_of_lines, get_semver_from_file, check_out_base,
  is_version_file_updated, compare_versions, release_branch_name, push_release_branch,
  create_release_branch, handle_version_change, ensure_client, handle_update, run,
}
use ci_infra_gardener.ReleaseHandler.Classifying.{RespectsNumbers, prepare_major_minor_iff}
use ci_infra_gardener.ReleaseHandler.Branching.{
  IsReleaseBranch, run_pushes-IsReleaseBranch, based_state,
}

-- The world is the minor number in the version file.
abbrev fake_remote : Remote ℕ Text ℕ
fake_remote = record {
  greater = λ a b. ltb b a;
  major = λ v. 1;
  minor = λ v. v;
  patch = λ v. 0;
  prerelease = λ v. codes "dev";
  new_version = λ s. ok (elim (s == codes "1.3.0-dev") [ true ↦ 3 | false ↦ 2 ]);
  client_for = λ org repo w. (ok tt, w);
  diff = λ base head w. (ok (codes "VERSION" ∷ []), w);
  read_lines =
      λ path w. (ok ((elim w [ zero ↦ codes "1.2.0-dev" | suc _ ↦ codes "1.3.0-dev" ]) ∷ []), w);
  checkout = λ ref w. (ok tt, w);
  checkout_new_branch = λ branch w. (ok tt, w);
  reset_hard = λ ref w. (ok tt, 0);
  branch_exists = λ branch w. false;
  push_to_central = λ branch force w. (ok tt, w);
}

abbrev some_options : Options
some_options = record {
  org = codes "org";
  repo = codes "repo";
  base_sha = codes "abc";
  release_branch_prefix = codes "release-";
  version_file_path = codes "VERSION";
  dry_run = false;
}

abbrev start : Trace ℕ Call
start = record { world = 1; calls = [] }

respects : RespectsNumbers fake_remote
respects a b h = ground arith

prepare_major_minor_iff_example :
    (change_of fake_remote 3 2 ≡ ok prepare_new_major_minor_version) ↔ (
      (ltb 2 3 ≡ true)
      × (codes "dev" ≢ [])
      × (codes "dev" ≢ [])
      × ((1 < 1) ⊎ ((fake_remote.major 2 ≡ fake_remote.major 3) × (2 < 3))))
prepare_major_minor_iff_example = prepare_major_minor_iff fake_remote 3 2 respects

abbrev final_calls : List Call
final_calls = (run fake_remote some_options false start).1.calls

pushes : Has (pushed (codes "release-v1.2")) final_calls
unfolding run ensure_client check_out_base handle_update is_version_file_updated compare_versions
    get_semver_from_file version_of_lines classify_version_change change_of handle_version_change
    create_release_branch push_release_branch release_branch_name contains ◌==◌ trim trim_left
    decimal digits_from any
pushes = inl refl

run_pushes-IsReleaseBranch_example :
    IsReleaseBranch fake_remote some_options
      (based_state fake_remote some_options false 1)
      (codes "release-v1.2")
run_pushes-IsReleaseBranch_example =
    run_pushes-IsReleaseBranch fake_remote some_options false 1 (codes "release-v1.2") pushes
