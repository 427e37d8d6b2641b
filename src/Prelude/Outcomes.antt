-- ===== src/Prelude/Outcomes.antt =====
-- What a Go function returns when it returns no error: rules that follow its body.
use mathlib.Core.Path.{◌≡◌, subst}
use mathlib.Core.Bool.{Bool, true, false}
use ci_infra_gardener.Prelude.Tests.{if◌then◌else◌}
use ci_infra_gardener.Prelude.Effects.{Result, ok, err, Exec, continue, ◌>>=◌, then_result, map_err}

abbrev Holds : {E A : Type 0} → (A → Type 0) → Result E A → Type 0
Holds P (ok a) = P a
Holds P (err e) = Unit

pub record Returns {E A : Type 0} (P : A → Type 0) (r : Result E A) : Type 0 where
  pub holds : Holds P r

-- Every run from any state returns such a value or an error.
pub record Gives {S E A : Type 0} (P : A → Type 0) (m : Exec S E A) : Type 0 where
  pub from : (s : S) → Returns P (m s).0

-- Nothing is known of the value.
abbrev pub Any : {A : Type 0} → A → Type 0
Any a = Unit

module _ {E A : Type 0} where
  pub ok-Returns : (P : A → Type 0) (a : A) → P a → Returns {E = E} P (ok a)
  ok-Returns P a h = record { holds = h }

  pub Any-Returns : (r : Result E A) → Returns Any r
  Any-Returns (ok a) = record { holds = tt }
  Any-Returns (err e) = record { holds = tt }

  pub if-Returns :
      {P : A → Type 0} (b : Bool) {r s : Result E A}
      → Returns P r
      → Returns P s
      → Returns P (if b then r else s)
  if-Returns true h k = h
  if-Returns false h k = k

  pub map_err-Returns :
      {F : Type 0} {P : A → Type 0} (f : E → F) (r : Result E A)
      → Returns P r
      → Returns P (map_err f r)
  map_err-Returns f (ok a) h = record { holds = h.holds }
  map_err-Returns f (err e) h = record { holds = tt }

  pub ok_of_Returns : {P : A → Type 0} {r : Result E A} {a : A} → Returns P r → r ≡ ok a → P a
  ok_of_Returns {P} {r} {a} h e = (subst (Returns P) e h).holds

  pub then_result-Returns :
      {B : Type 0} {P : A → Type 0} {Q : B → Type 0} (r : Result E A) {f : A → Result E B}
      → Returns P r
      → ((a : A) → P a → Returns Q (f a))
      → Returns Q (then_result r f)
  then_result-Returns (ok a) h k = k a h.holds
  then_result-Returns (err e) h k = record { holds = tt }

module _ {S E A : Type 0} where
  pub pure-Gives : (P : A → Type 0) (a : A) → P a → Gives {S = S} {E = E} P (λ s. (ok a, s))
  pure-Gives P a h = record { from = λ s. record { holds = h } }

  pub lift-Gives : {P : A → Type 0} {r : Result E A} → Returns P r → Gives {S = S} P (λ s. (r, s))
  lift-Gives h = record { from = λ s. h }

  pub Any-Gives : (m : Exec S E A) → Gives Any m
  Any-Gives m = record { from = λ s. Any-Returns (m s).0 }

  pub if-Gives :
      {P : A → Type 0} (b : Bool) {m n : Exec S E A}
      → Gives P m
      → Gives P n
      → Gives P (if b then m else n)
  if-Gives true h k = h
  if-Gives false h k = k

  continue-Returns :
      {B : Type 0} {P : A → Type 0} {Q : B → Type 0} (r : Result E A) (f : A → Exec S E B) (s : S)
      → Returns P r
      → ((a : A) → P a → Gives Q (f a))
      → Returns Q (continue r f s).0
  continue-Returns (ok a) f s h k = (k a h.holds).from s
  continue-Returns (err e) f s h k = record { holds = tt }

  pub bind-Gives :
      {B : Type 0} {P : A → Type 0} {Q : B → Type 0} (m : Exec S E A) {f : A → Exec S E B}
      → Gives P m
      → ((a : A) → P a → Gives Q (f a))
      → Gives Q (m >>= f)
  bind-Gives m {f} h k = record { from = λ s. continue-Returns (m s).0 f (m s).1 (h.from s) k }

  -- All values are such.
  pub every-Gives : {P : A → Type 0} (m : Exec S E A) → ((a : A) → P a) → Gives P m
  every-Gives {P} m h = record { from = λ s. every-Returns (m s).0 }
    where
      every-Returns : (r : Result E A) → Returns P r
      every-Returns (ok a) = record { holds = h a }
      every-Returns (err e) = record { holds = tt }
