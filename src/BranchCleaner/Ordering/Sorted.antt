-- ===== src/BranchCleaner/Ordering/Sorted.antt =====
-- Sorting keeps the branches and puts later versions first.
use mathlib.Core.List.{Perm}
use mathlib.Core.List.Perm
use ci_infra_gardener.Prelude.{
  ℕ, ◌≡◌, refl, subst, ◌∙◌, ◌≤◌, ◌↔◌, ◌⊎◌, inl, inr, Bool, true, false, not, ◌||◌, Option, none,
  some, List, [], ◌∷◌, arith, Text, ==_iff, text_lt, length, any, is_some, leb, Option-cases,
}
use ci_infra_gardener.BranchCleaner.Ordering.{
  version_key, compare_keys, key_less, branch_less, inserted, insert_branch, sort_branches,
}

-- The key of one branch is not behind that of another: its first part is the greater text, or the first
-- parts are equal and its number is not less.
abbrev pub KeyPrecedes : Option (Text × ℕ) → Option (Text × ℕ) → Type 0
KeyPrecedes (some (x, m)) (some (y, n)) = ((x ≡ y) × (n ≤ m)) ⊎ (text_lt y x ≡ true)
KeyPrecedes _ _ = ⊥

abbrev pub Precedes : Text → Text → Type 0
Precedes a b = KeyPrecedes (version_key a) (version_key b)

abbrev pub Starts : Text → List Text → Type 0
Starts a [] = Unit
Starts a (b ∷ bs) = Precedes a b

-- Each branch precedes the next one.
abbrev pub IsSorted : List Text → Type 0
IsSorted [] = Unit
IsSorted (a ∷ bs) = Starts a bs × IsSorted bs

abbrev OfSome : (List Text → Type 0) → Option (List Text) → Type 0
OfSome P none = Unit
OfSome P (some cs) = P cs

text_lt_total : (s t : Text) → text_lt s t ≡ false → (s ≡ t) ⊎ (text_lt t s ≡ true)
unfolding text_lt
text_lt_total [] [] h = inl refl
text_lt_total (c ∷ s) [] h = inr refl
text_lt_total [] (d ∷ t) h = ground arith
text_lt_total (c ∷ s) (d ∷ t) h = ground (arith, text_lt_total s t)

key_less-Precedes :
    (x y : Text) (m n : ℕ) → key_less (x, m) (y, n) ≡ true → KeyPrecedes (some (x, m)) (some (y, n))
unfolding key_less
key_less-Precedes x y m n h = ground (arith, ==_iff x y)

not_less-Precedes :
    (x y : Text) (m n : ℕ)
    → key_less (x, m) (y, n) ≡ false
    → KeyPrecedes (some (y, n)) (some (x, m))
unfolding key_less
not_less-Precedes x y m n h = ground (arith, ==_iff x y, text_lt_total y x)

less-KeyPrecedes : (k l : Option (Text × ℕ)) → compare_keys k l ≡ some true → KeyPrecedes k l
less-KeyPrecedes none l h = ground (arith, h)
less-KeyPrecedes (some k) none h = ground (arith, h)
less-KeyPrecedes (some (x, m)) (some (y, n)) h = key_less-Precedes x y m n (ground (arith, h))

not_less-KeyPrecedes : (k l : Option (Text × ℕ)) → compare_keys k l ≡ some false → KeyPrecedes l k
not_less-KeyPrecedes none l h = ground (arith, h)
not_less-KeyPrecedes (some k) none h = ground (arith, h)
not_less-KeyPrecedes (some (x, m)) (some (y, n)) h = not_less-Precedes x y m n (ground (arith, h))

inserted-Starts :
    (p a b : Text) (bs : List Text) (l : Option Bool) (rest : Option (List Text))
    → Precedes p b
    → Precedes p a
    → OfSome (Starts p) (inserted a b bs l rest)
inserted-Starts p a b bs none rest h k = tt
inserted-Starts p a b bs (some true) none h k = tt
inserted-Starts p a b bs (some true) (some cs) h k = h
inserted-Starts p a b bs (some false) rest h k = k

insert-Starts :
    (p a : Text) (bs : List Text)
    → Starts p bs
    → Precedes p a
    → OfSome (Starts p) (insert_branch a bs)
unfolding insert_branch
insert-Starts p a [] h k = k
insert-Starts p a (b ∷ bs) h k = inserted-Starts p a b bs (branch_less b a) (insert_branch a bs) h k

inserted-IsSorted :
    (a b : Text) (bs : List Text) (l : Option Bool) (rest : Option (List Text))
    → branch_less b a ≡ l
    → IsSorted (b ∷ bs)
    → (Precedes b a → OfSome (Starts b) rest)
    → OfSome IsSorted rest
    → OfSome IsSorted (inserted a b bs l rest)
unfolding branch_less
inserted-IsSorted a b bs none rest e h k i = tt
inserted-IsSorted a b bs (some true) none e h k i = tt
inserted-IsSorted a b bs (some true) (some cs) e h k i =
    (k (less-KeyPrecedes (version_key b) (version_key a) e), i)
inserted-IsSorted a b bs (some false) rest e h k i =
    (not_less-KeyPrecedes (version_key b) (version_key a) e, h)

insert-IsSorted : (a : Text) (bs : List Text) → IsSorted bs → OfSome IsSorted (insert_branch a bs)
unfolding insert_branch
insert-IsSorted a [] h = (tt, tt)
insert-IsSorted a (b ∷ bs) h =
    inserted-IsSorted a b bs (branch_less b a) (insert_branch a bs) refl h
      (insert-Starts b a bs h.0) (insert-IsSorted a bs h.1)

insert-perm : (a : Text) (bs : List Text) → OfSome (λ cs. Perm cs (a ∷ bs)) (insert_branch a bs)
unfolding insert_branch
insert-perm a [] = Perm.refl _
insert-perm a (b ∷ bs) = go (branch_less b a) (insert_branch a bs) (insert-perm a bs)
  where
    go :
        (l : Option Bool) (rest : Option (List Text))
        → OfSome (λ cs. Perm cs (a ∷ bs)) rest
        → OfSome (λ cs. Perm cs (a ∷ b ∷ bs)) (inserted a b bs l rest)
    go none rest h = tt
    go (some true) none h = tt
    go (some true) (some cs) h = Perm.trans (Perm.cons b h) (Perm.swap a b bs)
    go (some false) rest h = Perm.refl _

abbrev is_keyless : Text → Bool
is_keyless b = not (is_some (version_key b))

-- What an insertion keeps, besides the branches: how many there are, and whether one has no key.
abbrev IsKept : Text → List Text → List Text → Type 0
IsKept a bs cs = (length cs ≡ length (a ∷ bs)) × (any is_keyless cs ≡ any is_keyless (a ∷ bs))

insert-IsKept : (a : Text) (bs : List Text) → OfSome (IsKept a bs) (insert_branch a bs)
unfolding insert_branch any
insert-IsKept a [] = (refl, refl)
insert-IsKept a (b ∷ bs) = go (branch_less b a) (insert_branch a bs) (insert-IsKept a bs)
  where
    go :
        (l : Option Bool) (rest : Option (List Text))
        → OfSome (IsKept a bs) rest
        → OfSome (IsKept a (b ∷ bs)) (inserted a b bs l rest)
    go none rest h = tt
    go (some true) none h = tt
    go (some true) (some cs) h = (ground (arith, h.0), ground (arith, h.1))
    go (some false) rest h = (refl, refl)

branch_less-none : (a b : Text) → is_some (branch_less b a) ≡ not (is_keyless b || is_keyless a)
unfolding branch_less
branch_less-none a b = go (version_key b) (version_key a)
  where
    go :
        (k l : Option (Text × ℕ))
        → is_some (compare_keys k l) ≡ not (not (is_some k) || not (is_some l))
    go none l = refl
    go (some k) none = refl
    go (some k) (some l) = refl

-- An insertion as it goes on, by the keys of the branch, of the first one and of the others, `n` of them.
inserted-panics :
    (a b : Text) (bs : List Text) (l : Option Bool) (rest : Option (List Text))
    (ka kb others : Bool) (n : ℕ)
    → is_some l ≡ not (kb || ka)
    → is_some rest ≡ (leb n 0 || not (ka || others))
    → (1 ≤ n) ⊎ (others ≡ false)
    → (n ≤ 0) ⊎ ((kb || others) ≡ false)
    → is_some (inserted a b bs l rest) ≡ not (ka || (kb || others))
inserted-panics a b bs none rest ka kb others n e r z h = ground (arith, e)
inserted-panics a b bs (some true) none ka kb others n e r z h = ground (arith, e, r, z, h)
inserted-panics a b bs (some true) (some cs) ka kb others n e r z h = ground (arith, e, r, z, h)
inserted-panics a b bs (some false) rest ka kb others n e r z h = ground (arith, e, z, h)

some_or_keyed : (bs : List Text) → (1 ≤ length bs) ⊎ (any is_keyless bs ≡ false)
unfolding any
some_or_keyed [] = inr refl
some_or_keyed (b ∷ bs) = inl (omega arith)

-- An insertion into branches that have keys, or into one branch, panics if a branch has none.
insert-panics :
    (a : Text) (bs : List Text)
    → (length bs ≤ 1) ⊎ (any is_keyless bs ≡ false)
    → is_some (insert_branch a bs) ≡ (leb (length bs) 0 || not (any is_keyless (a ∷ bs)))
unfolding insert_branch any
insert-panics a [] h = refl
insert-panics a (b ∷ bs) h =
    let step : (length bs ≤ 1) ⊎ (any is_keyless bs ≡ false) = ground (arith, h) in
    let now : (length bs ≤ 0) ⊎ ((is_keyless b || any is_keyless bs) ≡ false) = ground (arith, h) in
    inserted-panics a b bs (branch_less b a) (insert_branch a bs) (is_keyless a) (is_keyless b)
      (any is_keyless bs) (length bs) (branch_less-none a b) (insert-panics a bs step)
      (some_or_keyed bs) now
    ∙ ground arith

-- What is known of a sorted list: the branches are the same, in order, and as many, and one has no key if one
-- had none before.
abbrev IsSortOf : List Text → List Text → Type 0
IsSortOf bs cs =
    Perm cs bs × IsSorted cs × (length cs ≡ length bs) × (any is_keyless cs ≡ any is_keyless bs)

insert-IsSortOf :
    (b : Text) (bs cs : List Text)
    → IsSortOf bs cs
    → OfSome (IsSortOf (b ∷ bs)) (insert_branch b cs)
unfolding any
insert-IsSortOf b bs cs (perm, sorted, len, keys) =
    go (insert_branch b cs) (insert-perm b cs) (insert-IsSorted b cs sorted) (insert-IsKept b cs)
  where
    go :
        (r : Option (List Text))
        → OfSome (λ ds. Perm ds (b ∷ cs)) r
        → OfSome IsSorted r
        → OfSome (IsKept b cs) r
        → OfSome (IsSortOf (b ∷ bs)) r
    go none p i k = tt
    go (some ds) p i k =
        (Perm.trans p (Perm.cons b perm), i, omega (arith, k.0, len), ground (arith, k.1, keys))

sort-IsSortOf : (bs : List Text) → OfSome (IsSortOf bs) (sort_branches bs)
unfolding sort_branches
sort-IsSortOf [] = (Perm.refl _, tt, refl, refl)
sort-IsSortOf (b ∷ bs) = go (sort_branches bs) (sort-IsSortOf bs)
  where
    go :
        (r : Option (List Text))
        → OfSome (IsSortOf bs) r
        → OfSome (IsSortOf (b ∷ bs)) (elim r [ none ↦ none | some cs ↦ insert_branch b cs ])
    go none h = tt
    go (some cs) h = insert-IsSortOf b bs cs h

sort-panics :
    (bs : List Text) → is_some (sort_branches bs) ≡ (leb (length bs) 1 || not (any is_keyless bs))
unfolding sort_branches any
sort-panics [] = refl
sort-panics (b ∷ bs) = go (sort_branches bs) (sort-IsSortOf bs) (sort-panics bs)
  where
    go :
        (r : Option (List Text))
        → OfSome (IsSortOf bs) r
        → is_some r ≡ (leb (length bs) 1 || not (any is_keyless bs))
        → is_some (elim r [ none ↦ none | some cs ↦ insert_branch b cs ])
          ≡ (leb (length (b ∷ bs)) 1 || not (any is_keyless (b ∷ bs)))
    go none h e = ground (arith, e)
    go (some cs) (perm, sorted, len, keys) e =
        let kept : (length cs ≤ 1) ⊎ (any is_keyless cs ≡ false) = ground (arith, e, len, keys) in
        ground (arith, insert-panics b cs kept, len, keys)

-- The sort of the matching branches panics exactly when there are two or more and one of them has no
-- dot behind the prefix `release-v`.
pub sort_branches_panics_iff :
    (bs : List Text)
    → (sort_branches bs ≡ none)
      ↔ ((2 ≤ length bs) × (any (λ b. not (is_some (version_key b))) bs ≡ true))
sort_branches_panics_iff bs = (
  λ h. ground (arith, sort-panics bs, h),
  λ h. elim (Option-cases (sort_branches bs)) [
    | inl e ↦ e
    | inr (cs, e) ↦ ground (arith, sort-panics bs, h, e)
  ],
)

-- If the sort does not panic, it returns the same branches, as often. Without the prefix `release-v`, of two
-- neighbours the first has the greater text in front of its first dot, or the texts are equal and its number
-- behind that dot is not less. (The texts are compared as strings, so that release-v9.0 stands before
-- release-v10.0.)
pub sort_branches_lem : (bs cs : List Text) → sort_branches bs ≡ some cs → Perm cs bs × IsSorted cs
sort_branches_lem bs cs h =
    let sorted : OfSome (IsSortOf bs) (some cs) =
      subst (OfSome (IsSortOf bs)) h (sort-IsSortOf bs) in
    (sorted.0, sorted.1)
