-- ===== src/BranchCleaner/Selecting.antt =====
-- Which branches are identified for deletion.
use ci_infra_gardener.Prelude.{
  ◌⊎◌, Bool-cases, ◌-◌, ◌≤◌, ◌≡◌, refl, ap, subst, ◌∙◌, ◌⊎◌, inl, inr, Bool, true, false, List, [],
  ◌∷◌, arith, Text, any, drop, length, leb, Has, length-drop, Trace, ok, Result-cases, Bool-cases,
  if◌then◌else◌,
}
use ci_infra_gardener.Github.{PullRequest, FullRepo}
use ci_infra_gardener.BranchCleaner.{
  Options, Remote, Call, targets, comes_from, has_release_tag, identify_branches_with_release_tags,
  get_matching_branches, check_branch_to_delete, select_branches, identify_branches_to_delete,
  find_candidates,
}

Has-if :
    (b x : Text) (rest : List Text) (d : Bool)
    → Has b (if d then x ∷ rest else rest)
    → ((d ≡ true) × (b ≡ x)) ⊎ Has b rest
Has-if b x rest true (inl e) = inl (refl, e)
Has-if b x rest true (inr k) = inr k
Has-if b x rest false k = inr k

module _ {W E : Type 0} (remote : Remote W E) (options : Options) (r : FullRepo) where
  -- Deciding only reads.
  calls-get_matching_branches :
      (s : Trace W Call) → (get_matching_branches remote options r s).1.calls ≡ s.calls
  unfolding get_matching_branches
  calls-get_matching_branches s = ground arith

  calls-has_release_tag :
      (branch : Text) (s : Trace W Call)
      → (has_release_tag remote options r branch s).1.calls ≡ s.calls
  unfolding has_release_tag
  calls-has_release_tag branch s = ground arith

  calls-with_release_tags :
      (branches : List Text) (s : Trace W Call)
      → (identify_branches_with_release_tags remote options r branches s).1.calls ≡ s.calls
  unfolding identify_branches_with_release_tags
  calls-with_release_tags [] s = refl
  calls-with_release_tags (b ∷ bs) s =
      let s1 = (has_release_tag remote options r b s).1 in
      ground (arith, calls-has_release_tag b s, calls-with_release_tags bs s1)

  calls-check :
      (branch : Text) (s : Trace W Call)
      → (check_branch_to_delete remote options r branch s).1.calls ≡ s.calls
  unfolding check_branch_to_delete
  calls-check branch s = ground arith

  calls-select :
      (branches : List Text) (s : Trace W Call)
      → (select_branches remote options r branches s).1.calls ≡ s.calls
  unfolding select_branches
  calls-select [] s = refl
  calls-select (b ∷ bs) s =
      let s1 = (check_branch_to_delete remote options r b s).1 in
      ground (arith, calls-check b s, calls-select bs s1)

  pub calls-identify :
      (branches : List Text) (s : Trace W Call)
      → (identify_branches_to_delete remote options r branches s).1.calls ≡ s.calls
  unfolding identify_branches_to_delete
  calls-identify branches s = ground (arith, calls-select (drop options.keep_branches branches) s)

  pub calls-find_candidates :
      (s : Trace W Call) → (find_candidates remote options r s).1.calls ≡ s.calls
  unfolding find_candidates
  calls-find_candidates s = elim (Result-cases (get_matching_branches remote options r s).0) [
    | inr (e, bad) ↦ ground (arith, bad, calls-get_matching_branches s)
    | inl (bs, good) ↦ ground (
      arith,
      good,
      calls-get_matching_branches s,
      calls-with_release_tags bs (get_matching_branches remote options r s).1,
    )
  ]

  -- A branch may go without `ignore-open-prs` only if the repository listed no open pull request into
  -- it and, for a fork, the upstream repository listed none from it.
  abbrev pub IsUnused : (branch : Text) → W → Type 0
  IsUnused branch w =
      let listing = remote.get_pull_requests r.repo.owner r.repo.name w in
      (prs : List PullRequest) × (listing.0 ≡ ok prs)
      × (any (targets branch) prs ≡ false)
      × ((r.fork ≡ false)
          ⊎ ((upstream : List PullRequest) × ((remote.get_pull_requests r.parent.owner r.parent.name
                  listing.1).0
                ≡ ok upstream)
              × (any (comes_from r branch) upstream ≡ false)))

  check_branch_to_delete_lem :
      (branch : Text) (s : Trace W Call)
      → options.ignore_open_prs ≡ false
      → (check_branch_to_delete remote options r branch s).0 ≡ ok true
      → IsUnused branch s.world
  unfolding check_branch_to_delete
  check_branch_to_delete_lem branch s keep h =
      let listing = remote.get_pull_requests r.repo.owner r.repo.name s.world in
      elim (Result-cases listing.0) [
        | inr (e, bad) ↦ ground (arith, bad)
        | inl (prs, good) ↦ (
          prs,
          good,
          ground (arith, good),
          elim (Bool-cases r.fork) [
            | inr own ↦ inl own
            | inl fork ↦
                elim (Result-cases
                  (remote.get_pull_requests r.parent.owner r.parent.name listing.1).0) [
                    | inr (e, bad) ↦ ground (arith, fork, good, bad)
                    | inl (upstream, listed) ↦
                        inr (upstream, listed, ground (arith, fork, good, listed))
                  ]
          ],
        )
      ]

  select-cons :
      (x : Text) (xs out : List Text) (s : Trace W Call)
      → (select_branches remote options r (x ∷ xs) s).0 ≡ ok out
      → (d : Bool) × (rest : List Text) × ((check_branch_to_delete remote options r x s).0 ≡ ok d)
        × ((select_branches remote options r xs (check_branch_to_delete remote options r x s).1).0
            ≡ ok rest)
        × (out ≡ (if d then x ∷ rest else rest))
  unfolding select_branches
  select-cons x xs out s h =
      let c = check_branch_to_delete remote options r x s in
      elim (Result-cases c.0) [
        | inr (e, bad) ↦ ground (arith, bad)
        | inl (d, checked) ↦ elim (Result-cases (select_branches remote options r xs c.1).0) [
          | inr (e, bad) ↦ ground (arith, checked, bad)
          | inl (rest, good) ↦ (d, rest, checked, good, ground (arith, checked, good))
        ]
      ]

  -- The branches are checked one after the other, from a state on: `b` is one of them, and is checked in
  -- the state `at`.
  abbrev pub IsCheckedAt : List Text → Trace W Call → (b : Text) → (at : Trace W Call) → Type 0
  IsCheckedAt [] s b at = ⊥
  IsCheckedAt (x ∷ xs) s b at =
      ((b ≡ x) × (at ≡ s)) ⊎ IsCheckedAt xs (check_branch_to_delete remote options r x s).1 b at

  -- When `b` was checked, no open pull request spoke against its deletion.
  pub record IsFree (branches : List Text) (s : Trace W Call) (b : Text) : Type 0 where
    pub at : Trace W Call
    pub checked : IsCheckedAt branches s b at
    pub unused : (options.ignore_open_prs ≡ true) ⊎ IsUnused b at.world

  IsFree-here :
      (x b : Text) (xs : List Text) (s : Trace W Call)
      → b ≡ x
      → (check_branch_to_delete remote options r x s).0 ≡ ok true
      → IsFree (x ∷ xs) s b
  IsFree-here x b xs s same allowed = record {
    at = s;
    checked = inl (same, refl);
    unused = elim (Bool-cases options.ignore_open_prs) [
      | inl ignored ↦ inl ignored
      | inr counted ↦ inr (rw same (check_branch_to_delete_lem x s counted allowed))
    ];
  }

  IsFree-later :
      (x b : Text) (xs : List Text) (s : Trace W Call)
      → IsFree xs (check_branch_to_delete remote options r x s).1 b
      → IsFree (x ∷ xs) s b
  IsFree-later x b xs s h = record { at = h.at; checked = inr h.checked; unused = h.unused }

  -- A selected branch is one of the given, and was found deletable when it was checked.
  selected :
      (branches out : List Text) (s : Trace W Call) (b : Text)
      → (select_branches remote options r branches s).0 ≡ ok out
      → Has b out
      → Has b branches × IsFree branches s b
  unfolding select_branches
  selected [] out s b h m = let e : out ≡ [] = ground arith in absurd (subst (Has b) e m)
  selected (x ∷ xs) out s b h m =
      let (d, rest, checked, good, e) = select-cons x xs out s h in
      let later = selected xs rest (check_branch_to_delete remote options r x s).1 b good in
      elim (Has-if b x rest d (subst (Has b) e m)) [
        | inl (yes_d, same) ↦ (inl same, IsFree-here x b xs s same (checked ∙ ap ok yes_d))
        | inr k ↦ (inr (later k).0, IsFree-later x b xs s (later k).1)
      ]

  length-select :
      (branches out : List Text) (s : Trace W Call)
      → (select_branches remote options r branches s).0 ≡ ok out
      → length out ≤ length branches
  unfolding select_branches
  length-select [] out s h = let e : out ≡ [] = ground arith in rw e (omega arith)
  length-select (x ∷ xs) out s h =
      let (d, rest, checked, good, e) = select-cons x xs out s h in
      ground (arith, e, length-select xs rest (check_branch_to_delete remote options r x s).1 good)

  -- Of the candidates the first `keep-branches` are not identified for deletion: an identified branch
  -- stands behind them, and it was found deletable.
  pub identify_branches_to_delete_lem :
      (branches out : List Text) (s : Trace W Call)
      → (identify_branches_to_delete remote options r branches s).0 ≡ ok out
      → (length out ≤ length branches - options.keep_branches)
        × ((b : Text)
            → Has b out
            → Has b (drop options.keep_branches branches)
              × IsFree (drop options.keep_branches branches) s b)
  unfolding identify_branches_to_delete
  identify_branches_to_delete_lem branches out s h =
      elim (Bool-cases (leb (length branches) options.keep_branches)) [
        | inl few ↦
            let e : out ≡ [] = ground (arith, few) in
            (rw e (omega arith), λ b m. absurd (subst (Has b) e m))
        | inr many ↦
            let rest = drop options.keep_branches branches in
            let k : (select_branches remote options r rest s).0 ≡ ok out = ground (arith, many) in
            (
              omega (arith, length-select rest out s k, length-drop options.keep_branches branches),
              λ b m. selected rest out s b k m,
            )
      ]
