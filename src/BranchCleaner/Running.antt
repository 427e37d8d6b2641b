-- ===== src/BranchCleaner/Running.antt =====
-- Which branches a whole run deletes.
use ci_infra_gardener.Prelude.{
  ◌≡◌, refl, subst, ◌∙◌, inl, inr, List, [], arith, Text, drop, Has, Trace, ok, Result-cases,
}
use ci_infra_gardener.Github.{FullRepo}
use ci_infra_gardener.BranchCleaner.{
  Options, Remote, Call, deleted, heads, delete_identified, identify_branches_to_delete,
  find_candidates, clean_repository, run,
}
use ci_infra_gardener.BranchCleaner.Selecting.{
  calls-identify, calls-find_candidates, IsFree, identify_branches_to_delete_lem,
}
use ci_infra_gardener.BranchCleaner.Deleting.{IsOf, deleted-cases}

module _ {W E : Type 0} (remote : Remote W E) (options : Options) where
  -- The deletion of an old branch of the repository `r`, by a run that is in the state `s` once it knows the
  -- repository.
  pub record IsOldCandidate (r : FullRepo) (s : Trace W Call) (owner name ref : Text) : Type 0 where
    pub candidates : List Text
    pub branch : Text
    pub found : (find_candidates remote options r s).0 ≡ ok candidates
    pub named : ref ≡ heads branch
    pub own : IsOf r owner name
    pub behind : Has branch (drop options.keep_branches candidates)
    pub free :
        IsFree remote options r
          (drop options.keep_branches candidates)
          (find_candidates remote options r s).1
          branch

  -- The repository of a run, and its state once GetRepo has answered.
  pub record IsOldBranch (full_repo : Text) (world : W) (owner name ref : Text) : Type 0 where
    pub names : Text × Text
    pub repo : FullRepo
    pub split : remote.split_repo_name full_repo ≡ ok names
    pub got : (remote.get_repo names.0 names.1 world).0 ≡ ok repo
    pub old :
        IsOldCandidate repo
          (record { world = (remote.get_repo names.0 names.1 world).1; calls = [] })
          owner
          name
          ref

  clean_repository_deletes :
      (r : FullRepo) (s : Trace W Call) (owner name ref : Text)
      → s.calls ≡ []
      → Has (deleted owner name ref) (clean_repository remote options r s).1.calls
      → IsOldCandidate r s owner name ref
  unfolding clean_repository
  clean_repository_deletes r s owner name ref none_yet m =
      let f = find_candidates remote options r s in
      let still : f.1.calls ≡ [] = calls-find_candidates remote options r s ∙ none_yet in
      elim (Result-cases f.0) [
        | inr (e, bad) ↦
            let e : (clean_repository remote options r s).1.calls ≡ [] =
              ground (arith, bad, still) in
            absurd (subst (Has (deleted owner name ref)) e m)
        | inl (candidates, found) ↦
            let i = identify_branches_to_delete remote options r candidates f.1 in
            let quiet : i.1.calls ≡ [] = calls-identify remote options r candidates f.1 ∙ still in
            elim (Result-cases i.0) [
              | inr (e, bad) ↦
                  let e : (clean_repository remote options r s).1.calls ≡ [] =
                    ground (arith, found, bad, quiet) in
                  absurd (subst (Has (deleted owner name ref)) e m)
              | inl (out, good) ↦
                  let e : (clean_repository remote options r s).1.calls
                      ≡ (delete_identified remote options r out i.1).1.calls =
                    ground (arith, found, good) in
                  elim (deleted-cases remote options r out i.1 owner name ref
                    (subst (Has (deleted owner name ref)) e m)) [
                      | inl k ↦ absurd (subst (Has (deleted owner name ref)) quiet k)
                      | inr (b, named, k, own) ↦
                          let (_, each) =
                            identify_branches_to_delete_lem remote options r candidates out f.1
                              good in
                          let (behind, free) = each b k in
                          record {
                            candidates = candidates;
                            branch = b;
                            found = found;
                            named = named;
                            own = own;
                            behind = behind;
                            free = free;
                          }
                    ]
            ]
      ]

  -- Whatever becomes of a run, what it deletes is a branch of the repository that GitHub returned for the
  -- name of the run. The branch is one of the candidates that were found there and stands behind the first
  -- `keep-branches` of them. When it was checked, in its turn among those behind, either open pull requests
  -- were to be ignored, or none into it was listed and, for a fork, none from it to the upstream repository.
  pub run_deletes_old_candidates :
      (full_repo : Text) (world : W) (owner name ref : Text)
      → Has
          (deleted owner name ref)
          (run remote options full_repo (record { world = world; calls = [] })).1.calls
      → IsOldBranch full_repo world owner name ref
  unfolding run
  run_deletes_old_candidates full_repo world owner name ref m =
      elim (Result-cases (remote.split_repo_name full_repo)) [
        | inr (e, bad) ↦
            let none : (run remote options full_repo (record { world = world; calls = [] })).1.calls
                ≡ [] =
              ground (arith, bad) in
            absurd (subst (Has (deleted owner name ref)) none m)
        | inl (names, known) ↦
            let g = remote.get_repo names.0 names.1 world in
            elim (Result-cases g.0) [
              | inr (e, bad) ↦
                  let none : (run remote options full_repo
                        (record { world = world; calls = [] })).1.calls
                      ≡ [] =
                    ground (arith, known, bad) in
                  absurd (subst (Has (deleted owner name ref)) none m)
              | inl (r, got) ↦
                  let s : Trace W Call = record { world = g.1; calls = [] } in
                  let e : (run remote options full_repo
                        (record { world = world; calls = [] })).1.calls
                      ≡ (clean_repository remote options r s).1.calls =
                    ground (arith, known, got) in
                  record {
                    names = names;
                    repo = r;
                    split = known;
                    got = got;
                    old =
                        clean_repository_deletes r s owner name ref refl
                          (subst (Has (deleted owner name ref)) e m);
                  }
            ]
      ]
