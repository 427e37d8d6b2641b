-- ===== src/Prelude/Effects.antt =====
-- Go functions that return an error, over a state that calls may change before they fail.
use mathlib.Core.Path.{◌≡◌, refl}
use mathlib.Core.Logic.{◌⊎◌, inl, inr}
use mathlib.Core.List.{List, [], ◌∷◌, ◌++◌, map}

pub data Result {ℓ κ} (E : Type ℓ) (A : Type κ) : Type (ℓ ⊔ κ) where
  ok : A → Result E A
  err : E → Result E A

abbrev pub Exec : Type 0 → Type 0 → Type 0 → Type 0
Exec S E A = S → Result E A × S

-- The outside world beside the calls made so far, the latest first.
pub record Trace (W C : Type 0) : Type 0 where
  pub world : W
  pub calls : List C

module _ {S E A : Type 0} where
  abbrev pub pure : A → Exec S E A
  pure a s = (ok a, s)

  abbrev pub raise : E → Exec S E A
  raise e s = (err e, s)

  abbrev pub lift : Result E A → Exec S E A
  lift r s = (r, s)

module _ {S E A B : Type 0} where
  abbrev pub continue : Result E A → (A → Exec S E B) → Exec S E B
  continue (ok a) f s = f a s
  continue (err e) f s = (err e, s)

  infixl 5 ◌>>=◌ ◌>>◌
  abbrev pub ◌>>=◌ : Exec S E A → (A → Exec S E B) → Exec S E B
  ◌>>=◌ m f s = let (r, s') = m s in continue r f s'

  abbrev pub ◌>>◌ : Exec S E A → Exec S E B → Exec S E B
  m >> n = m >>= λ _. n

-- Lift of a plain fallible computation through `>>=`.
abbrev pub then_result {ℓ κ μ} :
    {E : Type ℓ} {A : Type κ} {B : Type μ} → Result E A → (A → Result E B) → Result E B
then_result (ok a) f = f a
then_result (err e) f = err e

abbrev pub map_err {ℓ κ μ} :
    {E : Type ℓ} {F : Type κ} {A : Type μ} → (E → F) → Result E A → Result F A
map_err f (ok a) = ok a
map_err f (err e) = err (f e)

-- A call that only reads, a call that is recorded, and the caller's handling of a failure.
module _ {W C E A : Type 0} where
  abbrev pub observe : Exec W E A → Exec (Trace W C) E A
  observe m s = let (r, w) = m s.world in (r, record s { world = w })

  abbrev pub perform : C → Exec W E A → Exec (Trace W C) E A
  perform c m s = let (r, w) = m s.world in (r, record { world = w; calls = c ∷ s.calls })

module _ {S E F A : Type 0} where
  -- `if err != nil { return fmt.Errorf(..., err) }`
  abbrev pub wrap : (E → F) → Exec S E A → Exec S F A
  wrap f m s = let (r, s') = m s in (map_err f r, s')

  -- the result with its error, as a value
  abbrev pub attempt : Exec S E A → Exec S F (Result E A)
  attempt m s = let (r, s') = m s in (ok r, s')

-- A component with its own kind of calls, within one whose calls include those.
unfoldable pub embed : {W C D E A : Type 0} → (C → D) → Exec (Trace W C) E A → Exec (Trace W D) E A
embed f m s =
    let (r, t) = m (record { world = s.world; calls = [] }) in
    (r, record { world = t.world; calls = map f t.calls ++ s.calls })

pub Result-cases {ℓ κ} :
    {E : Type ℓ} {A : Type κ} (r : Result E A) → ((a : A) × (r ≡ ok a)) ⊎ ((e : E) × (r ≡ err e))
Result-cases (ok a) = inl (a, refl)
Result-cases (err e) = inr (e, refl)

module _ {S E F A B : Type 0} where
  -- `if err != nil { ... }` with a body that goes on with the error
  abbrev pub handling : Exec S E A → (E → Exec S F B) → (A → Exec S F B) → Exec S F B
  handling m failed rest s = let (r, s') = m s in elim r [ ok a ↦ rest a s' | err e ↦ failed e s' ]
