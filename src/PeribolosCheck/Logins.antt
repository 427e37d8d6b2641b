-- ===== src/PeribolosCheck/Logins.antt =====
-- Sets of normalized logins, normalize of prow/cmd/peribolos-checkconfig/main.go.
use ci_infra_gardener.Prelude.{
  ◌≡◌, sym, ap, ◌∙◌, subst, inl, inr, true, List, [], ◌∷◌, arith, Text, ◌==◌, ==_iff, contains, map,
  Bool-cases,
}
use ci_infra_gardener.Prelude.Sets.{contains-cons, contains-nil}
use ci_infra_gardener.PeribolosCheck.Teams.{normalize}
use ci_infra_gardener.PeribolosCheck.Walking.{contains-new_set}

contains-image :
    (f : Text → Text) (xs : List Text) (x : Text)
    → contains xs x ≡ true
    → contains (map f xs) (f x) ≡ true
contains-image f [] x h = ground (arith, contains-nil x)
contains-image f (a ∷ xs) x h = elim (Bool-cases (a == x)) [
  | inl e ↦
      let same : a ≡ x = (==_iff a x).0 e in
      contains-cons (f a) (map f xs) (f x) ∙ ground (arith, (==_iff (f a) (f x)).1 (ap f same))
  | inr e ↦
      let k : contains xs x ≡ true = ground (arith, e, contains-cons a xs x) in
      contains-cons (f a) (map f xs) (f x) ∙ ground (arith, contains-image f xs x k)
]

contains-preimage :
    (f : Text → Text) (xs : List Text) (y : Text)
    → contains (map f xs) y ≡ true
    → (x : Text) × (contains xs x ≡ true) × (f x ≡ y)
contains-preimage f [] y h = absurd (ground (arith, contains-nil y))
contains-preimage f (a ∷ xs) y h = elim (Bool-cases (f a == y)) [
  | inl e ↦ (a, ground (arith, contains-cons a xs a, ==_iff a a), (==_iff (f a) y).0 e)
  | inr e ↦
      let (x, k, same) =
        contains-preimage f xs y (ground (arith, e, contains-cons (f a) (map f xs) y)) in
      (x, ground (arith, k, contains-cons a xs x), same)
]

map_mono :
    (f : Text → Text) (xs ys : List Text)
    → ((x : Text) → contains xs x ≡ contains ys x)
    → (y : Text) → contains (map f xs) y ≡ true
    → contains (map f ys) y ≡ true
map_mono f xs ys same y h =
    let (x, k, e) = contains-preimage f xs y h in
    subst (λ z. contains (map f ys) z ≡ true) e (contains-image f ys x (sym (same x) ∙ k))

-- Lists of the same members have images of the same members.
map-same :
    (f : Text → Text) (xs ys : List Text)
    → ((x : Text) → contains xs x ≡ contains ys x)
    → (y : Text) → contains (map f xs) y ≡ contains (map f ys) y
map-same f xs ys same y =
    ground (arith, map_mono f xs ys same y, map_mono f ys xs (λ x. sym (same x)) y)

pub contains-normalize :
    (f : Text → Text) (xs ys : List Text)
    → ((x : Text) → contains xs x ≡ contains ys x)
    → (y : Text) → contains (normalize f xs) y ≡ contains (map f ys) y
unfolding normalize
contains-normalize f xs ys same y = contains-new_set (map f xs) y ∙ map-same f xs ys same y
