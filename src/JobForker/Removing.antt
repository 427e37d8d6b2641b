-- ===== src/JobForker/Removing.antt =====
-- Which files removeOrphanedJobs of prow/cmd/job-forker/forking.go removes, said without its tests.
use ci_infra_gardener.Prelude.{
  ℕ, zero, suc, ◌-◌, ◌≡◌, ◌≢◌, refl, sym, ap, ◌∙◌, ◌↔◌, ◌⊎◌, inl, inr, Bool, true, false, not, ◌||◌,
  List, [], ◌∷◌, ◌++◌, arith, Text, codes, ◌==◌, ==_iff, Has, All, length, length-append, drop, any,
  keep, has_prefix, cut_prefix, cut_prefix_iff, replace_byte, is_some, Trace, ok, Bool-cases,
  Option-cases, Result-cases,
}
use ci_infra_gardener.JobForker.{
  base, has_suffix, is_yaml, belongs_to, has_branch, create_target_file_name,
}
use ci_infra_gardener.JobForker.Forking.{Files, Call, is_nil, remove_if_orphaned, remove_orphans}
use ci_infra_gardener.JobForker.Orphans.{is_orphan, removals, remove_orphans_lem}

abbrev pub EndsIn : (suffix s : Text) → Type 0
EndsIn suffix s = (stem : Text) × (s ≡ stem ++ suffix)

-- A YAML file whose name starts with that of the repository, where dashes stand for slashes, and is not the
-- name that is made for any of the branches.
pub record IsOrphan (repository : Text) (branches : List Text) (file : Text) : Type 0 where
  pub yaml : EndsIn (codes ".yaml") file ⊎ EndsIn (codes ".yml") file
  pub of_repository : (rest : Text) × (base file ≡ replace_byte repository b'/' b'-' ++ rest)
  pub branchless :
      (branch : Text) → Has branch branches → base file ≢ create_target_file_name repository branch

split_drop : (n : ℕ) (s : Text) → (stem : Text) × (s ≡ stem ++ drop n s)
split_drop zero s = ([], refl)
split_drop (suc n) [] = ([], refl)
split_drop (suc n) (c ∷ s) =
    let (stem, e) = split_drop n s in (c ∷ stem, ap (λ (t : Text). c ∷ t) e)

drop-append : (stem suffix : Text) → drop (length stem) (stem ++ suffix) ≡ suffix
drop-append [] suffix = refl
drop-append (c ∷ stem) suffix = drop-append stem suffix

has_suffix_iff : (s suffix : Text) → (has_suffix s suffix ≡ true) ↔ EndsIn suffix s
unfolding has_suffix
has_suffix_iff s suffix = (
  λ h.
      let (stem, e) = split_drop (length s - length suffix) s in
      (stem, e ∙ ap (λ (t : Text). stem ++ t) ((==_iff _ suffix).0 h)),
  λ (stem, e).
      let n : length s - length suffix ≡ length stem =
        omega (arith, ap length e, length-append stem suffix) in
      (==_iff _ suffix).1
        (ap (λ (k : ℕ). drop k s) n ∙ ap (drop (length stem)) e ∙ drop-append stem suffix),
)

has_prefix_iff :
    (s prefix : Text) → (has_prefix s prefix ≡ true) ↔ ((rest : Text) × (s ≡ prefix ++ rest))
unfolding has_prefix
has_prefix_iff s prefix = (
  λ h. elim (Option-cases (cut_prefix prefix s)) [
    | inl bad ↦ absurd (ground (arith, bad, h))
    | inr (rest, good) ↦ (rest, (cut_prefix_iff prefix s rest).0 good)
  ],
  λ (rest, e). ap is_some ((cut_prefix_iff prefix s rest).1 e),
)

any-false_iff :
    (p : Text → Bool) (xs : List Text) → (any p xs ≡ false) ↔ ((x : Text) → Has x xs → p x ≡ false)
unfolding any
any-false_iff p [] = (λ h x m. absurd m, λ h. refl)
any-false_iff p (y ∷ ys) = (
  λ h x m. elim m [
    | inl e ↦ rw e (ground (arith, h))
    | inr k ↦ (any-false_iff p ys).0 (ground (arith, h)) x k
  ],
  λ h. ground (arith, h y (inl refl), (any-false_iff p ys).1 (λ x k. h x (inr k))),
)

Has-keep :
    (p : Text → Bool) (x : Text) (xs : List Text) → Has x (keep p xs) ↔ (Has x xs × (p x ≡ true))
unfolding keep
Has-keep p x [] = (λ m. absurd m, λ m. m.0)
Has-keep p x (y ∷ ys) = elim (Bool-cases (p y)) [
  | inl b ↦ rw b (
    λ m. elim m [
      | inl e ↦ (inl e, ap p e ∙ b)
      | inr k ↦ (inr ((Has-keep p x ys).0 k).0, ((Has-keep p x ys).0 k).1)
    ],
    λ (m, h). elim m [ inl e ↦ inl e | inr k ↦ inr ((Has-keep p x ys).1 (k, h)) ],
  )
  | inr b ↦ rw b (
    λ k. (inr ((Has-keep p x ys).0 k).0, ((Has-keep p x ys).0 k).1),
    λ (m, h). elim m [
      | inl e ↦ absurd (ground (arith, sym (ap p e) ∙ h, b))
      | inr k ↦ (Has-keep p x ys).1 (k, h)
    ],
  )
]

any-keep : (p : Text → Bool) (xs : List Text) → any p xs ≡ not (is_nil (keep p xs))
unfolding any keep
any-keep p [] = refl
any-keep p (x ∷ xs) = ground (arith, any-keep p xs)

is_orphan-IsOrphan :
    (repository : Text) (branches : List Text) (file : Text)
    → (is_orphan repository branches file ≡ true) ↔ IsOrphan repository branches file
unfolding is_yaml belongs_to has_branch
is_orphan-IsOrphan repository branches file =
    let of_branch : Text → Bool =
      λ branch. base file == create_target_file_name repository branch in
    let dashed = replace_byte repository b'/' b'-' in
    (
      λ h. record {
        yaml = elim (Bool-cases (has_suffix file (codes ".yaml"))) [
          | inl e ↦ inl ((has_suffix_iff file (codes ".yaml")).0 e)
          | inr n ↦ inr ((has_suffix_iff file (codes ".yml")).0 (ground (arith, h, n)))
        ];
        of_repository = (has_prefix_iff (base file) dashed).0 (ground (arith, h));
        branchless = λ branch m e.
            let never = (any-false_iff of_branch branches).0 (ground (arith, h)) branch m in
            absurd (ground (arith, never, (==_iff _ _).1 e));
      },
      λ o.
          let belongs = (has_prefix_iff (base file) dashed).1 o.of_repository in
          let never : any of_branch branches ≡ false =
            (any-false_iff of_branch branches).1 λ branch m. elim (Bool-cases (of_branch branch)) [
              | inl e ↦ absurd (o.branchless branch m ((==_iff _ _).0 e))
              | inr n ↦ n
            ] in
          elim o.yaml [
            | inl y ↦ ground (arith, (has_suffix_iff file (codes ".yaml")).1 y, belongs, never)
            | inr y ↦ ground (arith, (has_suffix_iff file (codes ".yml")).1 y, belongs, never)
          ],
    )

module _ {W E S : Type 0} (files : Files W E S) where
  -- The removal of a file has succeeded.
  abbrev pub WasRemoved : Text → Type 0
  WasRemoved file = (w : W) × ((files.remove file w).0 ≡ ok tt)

  removed_ok :
      (changes : Bool) (repository : Text) (branches forked_files : List Text) (s s' : Trace W Call)
      (b : Bool)
      → remove_orphans files changes repository branches forked_files s ≡ (ok b, s')
      → All WasRemoved (keep (is_orphan repository branches) forked_files)
  unfolding remove_orphans keep remove_if_orphaned
  removed_ok changes repository branches [] s s' b h = tt
  removed_ok changes repository branches (file ∷ rest) s s' b h =
      let r = remove_if_orphaned files repository branches file s in
      elim (Result-cases r.0) [
        | inr (e, bad) ↦ ground (arith, bad)
        | inl (gone, done) ↦
            let later =
              removed_ok (changes || gone) repository branches rest r.1 s' b
                (ground (arith, done, h)) in
            elim (Bool-cases (is_orphan repository branches file)) [
              | inl orphan ↦ rw orphan ((s.world, ground (arith, orphan, done)), later)
              | inr kept ↦ rw kept later
            ]
      ]

  -- If the removal of orphans ends without an error, the files that it removed are, of the listed files, those
  -- with a YAML extension whose name starts with the repository's, where dashes stand for slashes, and is
  -- not the name for any of the branches. Each of these removals succeeded, and a change is reported exactly
  -- if there was one or there was a change before.
  pub remove_orphans_iff :
      (changes : Bool) (repository : Text) (branches forked_files : List Text) (s s' : Trace W Call)
      (b : Bool)
      → remove_orphans files changes repository branches forked_files s ≡ (ok b, s')
      → (gone : List Text) × (s'.calls ≡ removals gone s.calls)
        × ((file : Text)
            → Has file gone ↔ (Has file forked_files × IsOrphan repository branches file))
        × All WasRemoved gone
        × (b ≡ (changes || not (is_nil gone)))
  remove_orphans_iff changes repository branches forked_files s s' b h =
      let (calls, changed) =
        remove_orphans_lem files changes repository branches forked_files s s' b h in
      (
        keep (is_orphan repository branches) forked_files,
        calls,
        λ file. (
          λ m.
              let (listed, orphan) =
                (Has-keep (is_orphan repository branches) file forked_files).0 m in
              (listed, (is_orphan-IsOrphan repository branches file).0 orphan),
          λ (listed, orphan).
              (Has-keep (is_orphan repository branches) file forked_files).1
                (listed, (is_orphan-IsOrphan repository branches file).1 orphan),
        ),
        removed_ok changes repository branches forked_files s s' b h,
        changed ∙ ap (λ c. changes || c) (any-keep (is_orphan repository branches) forked_files),
      )
