-- ===== src/BranchCleaner/Deleting.antt =====
-- What a run changes on GitHub.
use ci_infra_gardener.Prelude.{
  ◌≢◌, ◌≡◌, refl, sym, ap, subst, ◌∙◌, ◌⊎◌, inl, inr, true, false, List, [], ◌∷◌, ◌++◌, arith, Text,
  Has, Has-append_left, Bool-cases, Trace, ok, err, Result-cases,
}
use ci_infra_gardener.Github.{FullRepo}
use ci_infra_gardener.BranchCleaner.{
  Options, Remote, Call, protection_removed, deleted, heads, CleanError, delete_branches,
  remove_protection, remove_branch_protection, delete_identified,
}

-- The deletions of branches, behind earlier calls; the latest first.
abbrev pub deletions : FullRepo → List Text → List Call → List Call
deletions r [] calls = calls
deletions r (b ∷ bs) calls = deletions r bs (deleted r.repo.owner r.repo.name (heads b) ∷ calls)

-- The deletion is that of a branch of the repository.
abbrev pub IsOf : FullRepo → (owner name : Text) → Type 0
IsOf r owner name = (owner ≡ r.repo.owner) × (name ≡ r.repo.name)

deletions-cases :
    (r : FullRepo) (bs : List Text) (calls : List Call) (owner name ref : Text)
    → Has (deleted owner name ref) (deletions r bs calls)
    → Has (deleted owner name ref) calls
      ⊎ ((b : Text) × (ref ≡ heads b) × Has b bs × IsOf r owner name)
deletions-cases r [] calls owner name ref m = inl m
deletions-cases r (b ∷ bs) calls owner name ref m =
    elim (deletions-cases r bs (deleted r.repo.owner r.repo.name (heads b) ∷ calls) owner name ref
      m) [
        | inl (inl e) ↦ inr (b, cc, inl refl, (cc, cc))
        | inl (inr k) ↦ inl k
        | inr (c, e, k, own) ↦ inr (c, e, inr k, own)
      ]

-- Likewise for branch protection.
abbrev unprotections : List Text → List Call → List Call
unprotections [] calls = calls
unprotections (b ∷ bs) calls = unprotections bs (protection_removed b ∷ calls)

unprotections-deleted :
    (bs : List Text) (calls : List Call) (owner name ref : Text)
    → Has (deleted owner name ref) (unprotections bs calls)
    → Has (deleted owner name ref) calls
unprotections-deleted [] calls owner name ref m = m
unprotections-deleted (b ∷ bs) calls owner name ref m =
    elim (unprotections-deleted bs (protection_removed b ∷ calls) owner name ref m) [
      | inl e ↦ cc
      | inr k ↦ k
    ]

module _ {W E : Type 0} (remote : Remote W E) (options : Options) (r : FullRepo) where
  -- The branches are deleted in order up to the first failure: the calls are those for a first part of
  -- the list, which is the whole list if there is no failure.
  pub delete_branches_lem :
      (branches : List Text) (s : Trace W Call)
      → let (result, s') = delete_branches remote options r branches s in
        (done rest : List Text) × (branches ≡ done ++ rest)
        × (s'.calls ≡ deletions r done s.calls)
        × ((result ≢ ok tt) ⊎ (rest ≡ []))
  unfolding delete_branches
  delete_branches_lem [] s = ([], [], refl, refl, inr refl)
  delete_branches_lem (b ∷ bs) s =
      let d = remote.delete_ref r.repo.owner r.repo.name (heads b) s.world in
      elim (Result-cases d.0) [
        | inr (e, bad) ↦ (b ∷ [], bs, refl, ground (arith, bad), inl (λ k. ground (arith, bad)))
        | inl (_, good) ↦
            let s1 : Trace W Call = record {
              world = d.1;
              calls = deleted r.repo.owner r.repo.name (heads b) ∷ s.calls;
            } in
            let (done, rest, split, calls, whole) = delete_branches_lem bs s1 in
            (
              b ∷ done,
              rest,
              ap (λ (xs : List Text). b ∷ xs) split,
              ground (arith, good, calls),
              elim whole [
                | inl stopped ↦ inl (λ k. stopped (ground (arith, good)))
                | inr all ↦ inr all
              ],
            )
      ]

  protection_calls :
      (branches : List Text) (s : Trace W Call)
      → (done : List Text) × ((remove_branch_protection remote options r branches s).1.calls
          ≡ unprotections done s.calls)
  unfolding remove_branch_protection remove_protection
  protection_calls [] s = ([], refl)
  protection_calls (b ∷ bs) s =
      let g = remote.has_branch_protection r.repo.owner r.repo.name b s.world in
      let d = remote.remove_branch_protection r.repo.owner r.repo.name b g.1 in
      elim (Result-cases g.0) [
        | inr (e, bad) ↦ ([], ground (arith, bad))
        | inl (false, good) ↦
            let (done, calls) = protection_calls bs (record { world = g.1; calls = s.calls }) in
            (done, ground (arith, good, calls))
        | inl (true, good) ↦ elim (Result-cases d.0) [
          | inr (e, bad) ↦ (b ∷ [], ground (arith, good, bad))
          | inl (_, gone) ↦
              let (done, calls) =
                protection_calls bs
                  (record { world = d.1; calls = protection_removed b ∷ s.calls }) in
              (b ∷ done, ground (arith, good, gone, calls))
        ]
      ]

  -- If branch protection cannot be removed in release branch mode, no branch is deleted.
  pub protection_failure_deletes_nothing :
      (branches : List Text) (s : Trace W Call) (e : CleanError E)
      → options.release_branch_mode ≡ true
      → (remove_branch_protection remote options r branches s).0 ≡ err e
      → (owner name ref : Text)
      → Has (deleted owner name ref) (delete_identified remote options r branches s).1.calls
      → Has (deleted owner name ref) s.calls
  unfolding delete_identified
  protection_failure_deletes_nothing branches s e mode bad owner name ref m =
      let (done, calls) = protection_calls branches s in
      let all : (delete_identified remote options r branches s).1.calls
          ≡ unprotections done s.calls =
        ground (arith, mode, bad, calls) in
      unprotections-deleted done s.calls owner name ref (subst (Has (deleted owner name ref)) all m)

  identified_calls :
      (branches : List Text) (s : Trace W Call)
      → (unprotected done rest : List Text) × (branches ≡ done ++ rest)
        × ((delete_identified remote options r branches s).1.calls
            ≡ deletions r done (unprotections unprotected s.calls))
  unfolding delete_identified
  identified_calls branches s =
      let p = remove_branch_protection remote options r branches s in
      let (unprotected, protected_calls) = protection_calls branches s in
      elim (Bool-cases options.release_branch_mode) [
        | inr off ↦
            let (done, rest, split, calls, _) = delete_branches_lem branches s in
            ([], done, rest, split, ground (arith, off, calls))
        | inl mode ↦ elim (Result-cases p.0) [
          | inr (e, bad) ↦
              (unprotected, [], branches, refl, ground (arith, mode, bad, protected_calls))
          | inl (_, good) ↦
              let (done, rest, split, calls, _) = delete_branches_lem branches p.1 in
              (
                unprotected,
                done,
                rest,
                split,
                ground (arith, mode, good) ∙ calls ∙ ap (deletions r done) protected_calls,
              )
        ]
      ]

  pub deleted-cases :
      (branches : List Text) (s : Trace W Call) (owner name ref : Text)
      → Has (deleted owner name ref) (delete_identified remote options r branches s).1.calls
      → Has (deleted owner name ref) s.calls
        ⊎ ((b : Text) × (ref ≡ heads b) × Has b branches × IsOf r owner name)
  deleted-cases branches s owner name ref m =
      let (unprotected, done, rest, split, calls) = identified_calls branches s in
      elim (deletions-cases r done (unprotections unprotected s.calls) owner name ref
        (subst (Has (deleted owner name ref)) calls m)) [
          | inl k ↦ inl (unprotections-deleted unprotected s.calls owner name ref k)
          | inr (b, e, k, own) ↦
              inr (b, e, subst (Has b) (sym split) (Has-append_left b done rest k), own)
        ]
