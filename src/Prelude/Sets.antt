-- ===== src/Prelude/Sets.antt =====
-- Sets of texts (k8s.io/apimachinery/pkg/util/sets) as lists without order: what is observed of them is
-- membership, `contains`, and whether they are empty. Also slices.Sort, and Go maps as association lists.
use mathlib.Core.Path.{◌≡◌, refl}
use mathlib.Core.Logic.{◌↔◌}
use mathlib.Core.Bool.{Bool, false, not, ◌&&◌, ◌||◌}
use mathlib.Core.Option.{Option, none, some}
use mathlib.Core.List.{List, [], ◌∷◌, ◌++◌}
use native.Mathlib.Omega.{arith}
use ci_infra_gardener.Prelude.Tests.{if◌then◌else◌}
use ci_infra_gardener.Prelude.Lists.{any, keep}
use ci_infra_gardener.Prelude.Texts.{Text, ◌==◌, ==_iff, text_lt, contains}

unfoldable pub insert : Text → List Text → List Text
insert x xs = if contains xs x then xs else x ∷ xs

unfoldable pub insert_all : List Text → List Text → List Text
insert_all [] xs = xs
insert_all (y ∷ ys) xs = insert_all ys (insert y xs)

unfoldable pub difference : List Text → List Text → List Text
difference xs ys = keep (λ x. not (contains ys x)) xs

unfoldable pub intersection : List Text → List Text → List Text
intersection xs ys = keep (λ x. contains ys x) xs

unfoldable pub insert_sorted : Text → List Text → List Text
insert_sorted x [] = x ∷ []
insert_sorted x (y ∷ ys) =
    let rest = insert_sorted x ys in if text_lt y x then y ∷ rest else x ∷ y ∷ ys

unfoldable pub sort : List Text → List Text
unfolding insert_sorted
sort [] = []
sort (x ∷ xs) = insert_sorted x (sort xs)

pub contains-cons :
    (x : Text) (xs : List Text) (y : Text) → contains (x ∷ xs) y ≡ (x == y || contains xs y)
unfolding contains any
contains-cons x xs y = refl

pub contains-nil : (y : Text) → contains [] y ≡ false
unfolding contains any
contains-nil y = refl

pub contains-append :
    (xs ys : List Text) (y : Text) → contains (xs ++ ys) y ≡ (contains xs y || contains ys y)
contains-append [] ys y = ground (arith, contains-nil y)
contains-append (x ∷ xs) ys y =
    ground (arith, contains-cons x xs y, contains-cons x (xs ++ ys) y, contains-append xs ys y)

-- A test that respects equality of texts, as each function does, filters membership.
pub contains-keep :
    (p : Text → Bool) (xs : List Text) (y : Text) → contains (keep p xs) y ≡ (contains xs y && p y)
unfolding keep
contains-keep p [] y = ground (arith, contains-nil y)
contains-keep p (x ∷ xs) y =
    ground
      (arith, contains-cons x xs y, contains-cons x (keep p xs) y, contains-keep p xs y, ==_iff x y)

pub contains-insert :
    (x : Text) (xs : List Text) (y : Text) → contains (insert x xs) y ≡ (x == y || contains xs y)
unfolding insert
contains-insert x xs y = ground (arith, contains-cons x xs y, ==_iff x y)

pub contains-insert_all :
    (ys xs : List Text) (y : Text)
    → contains (insert_all ys xs) y ≡ (contains ys y || contains xs y)
unfolding insert_all
contains-insert_all [] xs y = ground (arith, contains-nil y)
contains-insert_all (z ∷ ys) xs y =
    ground
      (arith, contains-cons z ys y, contains-insert z xs y, contains-insert_all ys (insert z xs) y)

pub contains-difference :
    (xs ys : List Text) (y : Text)
    → contains (difference xs ys) y ≡ (contains xs y && not (contains ys y))
unfolding difference
contains-difference xs ys y = contains-keep (λ x. not (contains ys x)) xs y

pub contains-intersection :
    (xs ys : List Text) (y : Text)
    → contains (intersection xs ys) y ≡ (contains xs y && contains ys y)
unfolding intersection
contains-intersection xs ys y = contains-keep (λ x. contains ys x) xs y

contains-insert_sorted :
    (x : Text) (xs : List Text) (y : Text)
    → contains (insert_sorted x xs) y ≡ (x == y || contains xs y)
unfolding insert_sorted
contains-insert_sorted x [] y = contains-cons x [] y
contains-insert_sorted x (z ∷ xs) y = ground (
  arith,
  contains-cons z xs y,
  contains-cons z (insert_sorted x xs) y,
  contains-cons x (z ∷ xs) y,
  contains-insert_sorted x xs y,
)

pub contains-sort : (xs : List Text) (y : Text) → contains (sort xs) y ≡ contains xs y
unfolding sort
contains-sort [] y = refl
contains-sort (x ∷ xs) y =
    ground (arith, contains-cons x xs y, contains-insert_sorted x (sort xs) y, contains-sort xs y)

-- A set is empty if it has no member.
pub empty_iff : (xs : List Text) → (xs ≡ []) ↔ ((y : Text) → contains xs y ≡ false)
empty_iff [] = (λ h y. contains-nil y, λ h. refl)
empty_iff (x ∷ xs) = (λ h. ground arith, λ h. ground (arith, h x, contains-cons x xs x, ==_iff x x))

-- Go maps with text keys.
module _ {ℓ} {V : Type ℓ} where
  unfoldable pub lookup : Text → List (Text × V) → Option V
  lookup k [] = none
  lookup k ((j, v) ∷ m) = if j == k then some v else lookup k m

  unfoldable pub put : Text → V → List (Text × V) → List (Text × V)
  put k v [] = (k, v) ∷ []
  put k v ((j, w) ∷ m) = if j == k then (k, v) ∷ m else (j, w) ∷ put k v m

  unfoldable pub delete : Text → List (Text × V) → List (Text × V)
  delete k [] = []
  delete k ((j, w) ∷ m) = let rest = delete k m in if j == k then rest else (j, w) ∷ rest

  pub lookup-put :
      (k j : Text) (v : V) (m : List (Text × V))
      → lookup j (put k v m) ≡ (if k == j then some v else lookup j m)
  unfolding lookup put
  lookup-put k j v [] = refl
  lookup-put k j v ((i, w) ∷ m) =
      ground (arith, ==_iff k j, ==_iff i k, ==_iff i j, lookup-put k j v m)

  pub lookup-delete :
      (k j : Text) (m : List (Text × V))
      → lookup j (delete k m) ≡ (if k == j then none else lookup j m)
  unfolding lookup delete
  lookup-delete k j [] = ground arith
  lookup-delete k j ((i, w) ∷ m) =
      ground (arith, ==_iff k j, ==_iff i k, ==_iff i j, lookup-delete k j m)
