-- ===== src/JobForker/Generating.antt =====
-- The jobs that generatePresubmits, generatePostsubmits and generatePeriodics of
-- prow/cmd/job-forker/forking.go make.
use ci_infra_gardener.Prelude.{
  ◌≡◌, ◌≢◌, refl, ap, ◌∙◌, ◌⊎◌, inl, inr, Bool, true, false, List, [], ◌∷◌, arith, Text, ◌==◌,
  ==_iff, map, any, All, Bool-cases,
}
use ci_infra_gardener.Prelude.Sets.{delete, lookup-put, lookup-delete}
use ci_infra_gardener.JobForker.{
  fork_annotation, forked_annotation, set_true, Job, ExtraRef, Periodic, is_to_fork, mark_forked,
  fork_job, fork_all, set_base_ref, set_base_refs, is_related, fork_periodic, fork_periodics,
}

is_to_fork-mark_forked :
    (annotations : List (Text × Text)) → is_to_fork (mark_forked annotations) ≡ false
unfolding is_to_fork mark_forked
is_to_fork-mark_forked annotations = ground (
  arith,
  lookup-put forked_annotation fork_annotation set_true (delete fork_annotation annotations),
  lookup-delete fork_annotation fork_annotation annotations,
  ==_iff forked_annotation fork_annotation,
  ==_iff fork_annotation fork_annotation,
  ==_iff [] set_true,
)

module _ {S : Type 0} where
  -- Copies of presubmits or postsubmits are not copied again, for any branch.
  pub fork_all-fork_all :
      (branch later : Text) (js : List (Job S)) → fork_all later (fork_all branch js) ≡ []
  unfolding fork_all fork_job
  fork_all-fork_all branch later [] = refl
  fork_all-fork_all branch later (j ∷ js) = elim (Bool-cases (is_to_fork j.annotations)) [
    | inl forks ↦
        rw forks (rw (is_to_fork-mark_forked j.annotations) (fork_all-fork_all branch later js))
    | inr stays ↦ rw stays (fork_all-fork_all branch later js)
  ]

set_base_refs_lem :
    (repository branch : Text) (refs : List ExtraRef)
    → (map (λ ref. ref.org_repo) (set_base_refs repository branch refs)
        ≡ map (λ ref. ref.org_repo) refs)
      × All
          (λ ref. (ref.org_repo ≢ repository) ⊎ (ref.base_ref ≡ branch))
          (set_base_refs repository branch refs)
unfolding set_base_refs set_base_ref
set_base_refs_lem repository branch [] = (refl, tt)
set_base_refs_lem repository branch (ref ∷ refs) =
    let (names, set) = set_base_refs_lem repository branch refs in
    elim (Bool-cases (ref.org_repo == repository)) [
      | inl same ↦
          (rw same (ap (λ (xs : List Text). ref.org_repo ∷ xs) names), rw same (inr refl, set))
      | inr other ↦ (
        rw other (ap (λ (xs : List Text). ref.org_repo ∷ xs) names),
        rw other (inl (λ e. ground (arith, other, ==_iff ref.org_repo repository, e)), set),
      )
    ]

-- What a copy of a periodic is for its repository and branch.
pub record IsForked {S : Type 0} (repository branch : Text) (p : Periodic S) : Type 0 where
  pub related : is_related repository p.extra_refs ≡ true
  pub based : All (λ ref. (ref.org_repo ≢ repository) ⊎ (ref.base_ref ≡ branch)) p.extra_refs
  pub marked : is_to_fork p.annotations ≡ false

is_related-names :
    (repository : Text) (xs ys : List ExtraRef)
    → map (λ ref. ref.org_repo) xs ≡ map (λ ref. ref.org_repo) ys
    → is_related repository xs ≡ is_related repository ys
unfolding is_related any
is_related-names repository xs ys e = by_names xs ∙ ap (any_named repository) e ∙ sym_names ys
  where
    any_named : Text → List Text → Bool
    any_named repository names = any (λ name. name == repository) names

    by_names :
        (refs : List ExtraRef)
        → any (λ ref. ref.org_repo == repository) refs
          ≡ any_named repository (map (λ ref. ref.org_repo) refs)
    by_names [] = refl
    by_names (ref ∷ refs) = ground (arith, by_names refs)

    sym_names :
        (refs : List ExtraRef)
        → any_named repository (map (λ ref. ref.org_repo) refs)
          ≡ any (λ ref. ref.org_repo == repository) refs
    sym_names [] = refl
    sym_names (ref ∷ refs) = ground (arith, sym_names refs)

module _ {S : Type 0} where
  -- Every copy of a periodic has a reference to the repository, all of its references to the repository
  -- are based on the branch, and it is not copied again.
  pub fork_periodics-IsForked :
      (repository branch : Text) (ps : List (Periodic S))
      → All (IsForked repository branch) (fork_periodics repository branch ps)
  unfolding fork_periodics fork_periodic
  fork_periodics-IsForked repository branch [] = tt
  fork_periodics-IsForked repository branch (p ∷ ps) =
      let (names, based) = set_base_refs_lem repository branch p.extra_refs in
      elim (Bool-cases (is_to_fork p.annotations)) [
        | inr stays ↦ rw stays (fork_periodics-IsForked repository branch ps)
        | inl forks ↦ elim (Bool-cases (is_related repository p.extra_refs)) [
          | inr unrelated ↦ rw (forks, unrelated) (fork_periodics-IsForked repository branch ps)
          | inl related ↦
              rw (forks, related)
                (
                  record {
                    related =
                        is_related-names repository (set_base_refs repository branch p.extra_refs)
                          p.extra_refs names
                        ∙ related;
                    based = based;
                    marked = is_to_fork-mark_forked p.annotations;
                  },
                  fork_periodics-IsForked repository branch ps,
                )
        ]
      ]
