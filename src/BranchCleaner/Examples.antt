-- ===== src/BranchCleaner/Examples.antt =====
-- A repository with two release branches, and the theorems on the branch cleaner at it.
use mathlib.Core.List.{Perm}
use ci_infra_gardener.Prelude.{
  ◌≡◌, refl, ◌≤◌, ◌↔◌, inl, inr, true, false, not, none, some, List, [], ◌∷◌, Text, codes, ◌==◌,
  any, keep, is_some, Has, Trace, ok, err, text_lt, cut_prefix, trim_prefix, split_byte,
}
use ci_infra_gardener.Github.{FullRepo}
use ci_infra_gardener.BranchCleaner.{
  Options, Remote, Call, deleted, plain, get_matching_branches, check_branch_to_delete,
  select_branches, identify_branches_to_delete, delete_branches, remove_branch_protection,
  remove_protection, delete_identified, find_candidates, clean_repository, run,
}
use ci_infra_gardener.BranchCleaner.Ordering.{
  version_key, key_less, branch_less, insert_branch, sort_branches, digits_value, atoi,
}
use ci_infra_gardener.BranchCleaner.Ordering.Sorted.{
  IsSorted, sort_branches_lem, sort_branches_panics_iff,
}
use ci_infra_gardener.BranchCleaner.Deleting.{protection_failure_deletes_nothing}
use ci_infra_gardener.BranchCleaner.Running.{IsOldBranch, run_deletes_old_candidates}

abbrev old_branch : Text
old_branch = codes "release-v1.9"

abbrev new_branch : Text
new_branch = codes "release-v1.10"

abbrev upstream : FullRepo
upstream = record {
  repo = record { owner = codes "org"; name = codes "repo"; full_name = codes "org/repo" };
  default_branch = codes "master";
  fork = false;
  parent = record { owner = []; name = []; full_name = [] };
}

-- Branch protection cannot be removed here.
abbrev fake_remote : Remote (Unit {0}) Text
fake_remote = record {
  split_repo_name = λ name. ok (codes "org", codes "repo");
  compile = λ pattern. ok (λ branch. true);
  new_version = λ version. ok version;
  is_not_found = λ e. true;
  get_repo = λ owner name w. (ok upstream, w);
  get_branches = λ org repo only_protected w.
      (ok (elim only_protected [ true ↦ [] | false ↦ old_branch ∷ new_branch ∷ [] ]), w);
  has_branch_protection = λ org repo branch w. (ok true, w);
  remove_branch_protection = λ org repo branch w. (err (codes "forbidden"), w);
  get_pull_requests = λ org repo w. (ok [], w);
  get_ref = λ org repo ref w. (ok ref, w);
  delete_ref = λ org repo ref w. (ok tt, w);
}

abbrev keep_one : Options
keep_one = record {
  branch_pattern = codes "release-v";
  keep_branches = 1;
  ignore_open_prs = false;
  release_branch_mode = false;
}

abbrev release_mode : Options
release_mode = record keep_one { release_branch_mode = true }

sorts : sort_branches (old_branch ∷ new_branch ∷ []) ≡ some (new_branch ∷ old_branch ∷ [])
unfolding sort_branches insert_branch branch_less version_key key_less atoi digits_value text_lt
    ◌==◌ trim_prefix cut_prefix split_byte any
sorts = refl

sort_branches_lem_example :
    Perm (new_branch ∷ old_branch ∷ []) (old_branch ∷ new_branch ∷ [])
    × IsSorted (new_branch ∷ old_branch ∷ [])
sort_branches_lem_example =
    sort_branches_lem (old_branch ∷ new_branch ∷ []) (new_branch ∷ old_branch ∷ []) sorts

sort_branches_panics_iff_example :
    (sort_branches (codes "v1" ∷ codes "v2" ∷ []) ≡ none)
    ↔ ((2 ≤ 2) × (any (λ b. not (is_some (version_key b))) (codes "v1" ∷ codes "v2" ∷ []) ≡ true))
sort_branches_panics_iff_example = sort_branches_panics_iff (codes "v1" ∷ codes "v2" ∷ [])

abbrev final_calls : List Call
final_calls =
    (run fake_remote keep_one (codes "org/repo") (record { world = tt; calls = [] })).1.calls

deletes_old : Has (deleted (codes "org") (codes "repo") (codes "heads/release-v1.9")) final_calls
unfolding run clean_repository find_candidates get_matching_branches identify_branches_to_delete
    select_branches check_branch_to_delete delete_identified delete_branches sort_branches
    insert_branch branch_less version_key key_less atoi digits_value text_lt ◌==◌ trim_prefix
    cut_prefix split_byte any keep
deletes_old = inl refl

run_deletes_old_candidates_example :
    IsOldBranch fake_remote keep_one
      (codes "org/repo")
      tt
      (codes "org")
      (codes "repo")
      (codes "heads/release-v1.9")
run_deletes_old_candidates_example =
    run_deletes_old_candidates fake_remote keep_one (codes "org/repo") tt (codes "org")
      (codes "repo") (codes "heads/release-v1.9") deletes_old

abbrev deleted_before : Trace (Unit {0}) Call
deleted_before = record {
  world = tt;
  calls = deleted (codes "org") (codes "repo") (codes "heads/a") ∷ [];
}

protection_fails :
    (remove_branch_protection fake_remote release_mode upstream (old_branch ∷ []) deleted_before).0
    ≡ err (plain (codes "forbidden"))
unfolding remove_branch_protection remove_protection
protection_fails = refl

keeps_earlier :
    Has
      (deleted (codes "org") (codes "repo") (codes "heads/a"))
      (delete_identified fake_remote release_mode upstream (old_branch ∷ []) deleted_before).1.calls
unfolding delete_identified remove_branch_protection remove_protection
keeps_earlier = inr (inl refl)

protection_failure_deletes_nothing_example :
    Has (deleted (codes "org") (codes "repo") (codes "heads/a")) deleted_before.calls
protection_failure_deletes_nothing_example =
    protection_failure_deletes_nothing fake_remote release_mode upstream (old_branch ∷ [])
      deleted_before (plain (codes "forbidden")) refl protection_fails (codes "org") (codes "repo")
      (codes "heads/a") keeps_earlier

abbrev start : Trace (Unit {0}) Call
start = record { world = tt; calls = [] }

may_go : (check_branch_to_delete fake_remote keep_one upstream old_branch start).0 ≡ ok true
unfolding check_branch_to_delete any
may_go = refl
