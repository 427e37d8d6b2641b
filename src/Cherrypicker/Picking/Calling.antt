-- ===== src/Cherrypicker/Picking/Calling.antt =====
-- Which calls a part of the cherrypicker, prow/external-plugins/cherrypicker/server.go, adds to those made so
-- far: rules for each way to build it.
use ci_infra_gardener.Prelude.{
  ◌≡◌, refl, ap, ◌∙◌, Bool, true, false, List, [], ◌∷◌, ◌++◌, arith, All, All-append, if◌then◌else◌,
  Exec, Result, ok, err, Trace, continue, attempt, handling, ◌>>=◌,
}
use ci_infra_gardener.Cherrypicker.Picking.{Call}

append_assoc : (xs ys zs : List Call) → xs ++ (ys ++ zs) ≡ (xs ++ ys) ++ zs
append_assoc [] ys zs = refl
append_assoc (x ∷ xs) ys zs = ap (λ r. x ∷ r) (append_assoc xs ys zs)

module _ {W : Type 0} (OK : Call → Type 0) where
  -- The second state has more calls, each of which is such.
  abbrev pub IsAfter : Trace W Call → Trace W Call → Type 0
  IsAfter s t = (new : List Call) × (t.calls ≡ new ++ s.calls) × All OK new

  pub IsAfter-refl : (s : Trace W Call) → IsAfter s s
  IsAfter-refl s = ([], refl, tt)

  pub IsAfter-call : (c : Call) (s t : Trace W Call) → OK c → t.calls ≡ c ∷ s.calls → IsAfter s t
  IsAfter-call c s t h e = (c ∷ [], e, (h, tt))

  pub IsAfter-trans : (s t u : Trace W Call) → IsAfter s t → IsAfter t u → IsAfter s u
  IsAfter-trans s t u (xs, e, h) (ys, f, k) =
      (ys ++ xs, f ∙ (ap (λ r. ys ++ r) e ∙ append_assoc ys xs s.calls), All-append OK ys xs k h)

  -- Whatever it returns, and from any state.
  pub record Adds {E A : Type 0} (m : Exec (Trace W Call) E A) : Type 0 where
    pub from : (s : Trace W Call) → IsAfter s (m s).1

  module _ {E A : Type 0} where
    -- Nothing is called.
    pub Adds-none :
        {m : Exec (Trace W Call) E A} → ((s : Trace W Call) → (m s).1.calls ≡ s.calls) → Adds m
    Adds-none h = record { from = λ s. ([], h s, tt) }

    pub Adds-one :
        {m : Exec (Trace W Call) E A} (c : Call)
        → OK c
        → ((s : Trace W Call) → (m s).1.calls ≡ c ∷ s.calls)
        → Adds m
    Adds-one c h e = record { from = λ s. (c ∷ [], e s, (h, tt)) }

    pub Adds-if :
        (b : Bool) {m n : Exec (Trace W Call) E A} → Adds m → Adds n → Adds (if b then m else n)
    Adds-if true h k = h
    Adds-if false h k = k

    pub Adds-choice :
        (b : Bool) {m n : Exec (Trace W Call) E A}
        → (b ≡ true → Adds m)
        → (b ≡ false → Adds n)
        → Adds (λ s. if b then m s else n s)
    Adds-choice true h k = record { from = λ s. (h refl).from s }
    Adds-choice false h k = record { from = λ s. (k refl).from s }

    pub Adds-attempt :
        {F : Type 0} {m : Exec (Trace W Call) E A} → Adds m → Adds {E = F} (attempt m)
    Adds-attempt h = record { from = λ s. h.from s }

  module _ {E F A B : Type 0} where
    handled :
        (r : Result E A) (s : Trace W Call) {failed : E → Exec (Trace W Call) F B}
        {rest : A → Exec (Trace W Call) F B}
        → ((e : E) → Adds (failed e))
        → ((a : A) → Adds (rest a))
        → IsAfter s
            (elim r as (λ x. Result F B × Trace W Call) [ ok a ↦ rest a s | err e ↦ failed e s ]).1
    handled (ok a) s h k = (k a).from s
    handled (err e) s h k = (h e).from s

    pub Adds-handling :
        (m : Exec (Trace W Call) E A) (failed : E → Exec (Trace W Call) F B)
        (rest : A → Exec (Trace W Call) F B)
        → Adds m
        → ((e : E) → Adds (failed e))
        → ((a : A) → Adds (rest a))
        → Adds (handling m failed rest)
    Adds-handling m failed rest h k l = record {
      from = λ s.
          IsAfter-trans s (m s).1 (handling m failed rest s).1 (h.from s)
            (handled (m s).0 (m s).1 k l);
    }

    handled_failure :
        (r : Result E A) (s : Trace W Call) (failed : E → Exec (Trace W Call) F B)
        (rest : A → Exec (Trace W Call) F B)
        → ((e : E) × (r ≡ err e))
        → ((e : E) → Adds (failed e))
        → IsAfter s
            (elim r as (λ x. Result F B × Trace W Call) [ ok a ↦ rest a s | err e ↦ failed e s ]).1
    handled_failure (ok a) s failed rest (e, bad) h = absurd (ground (arith, bad))
    handled_failure (err e) s failed rest bad h = (h e).from s

    -- What follows a success is of no matter if there is none.
    pub Adds-failing :
        (m : Exec (Trace W Call) E A) (failed : E → Exec (Trace W Call) F B)
        (rest : A → Exec (Trace W Call) F B)
        → Adds m
        → ((s : Trace W Call) → (e : E) × ((m s).0 ≡ err e))
        → ((e : E) → Adds (failed e))
        → Adds (handling m failed rest)
    Adds-failing m failed rest h bad k = record {
      from = λ s.
          IsAfter-trans s (m s).1 (handling m failed rest s).1 (h.from s)
            (handled_failure (m s).0 (m s).1 failed rest (bad s) k);
    }

  module _ {E A B : Type 0} where
    continued :
        (r : Result E A) (s : Trace W Call) {f : A → Exec (Trace W Call) E B}
        → ((a : A) → Adds (f a))
        → IsAfter s (continue r f s).1
    continued (ok a) s k = (k a).from s
    continued (err e) s k = IsAfter-refl s

    pub Adds-bind :
        (m : Exec (Trace W Call) E A) {f : A → Exec (Trace W Call) E B}
        → Adds m
        → ((a : A) → Adds (f a))
        → Adds (m >>= f)
    Adds-bind m {f} h k = record {
      from = λ s. IsAfter-trans s (m s).1 ((m >>= f) s).1 (h.from s) (continued (m s).0 (m s).1 k);
    }

-- What follows is such for each result that the first part may return.
module _ {W E A B : Type 0} (OK : Call → Type 0) where
  continued_each :
      (r : Result E A) (s : Trace W Call) (f : A → Exec (Trace W Call) E B)
      → ((a : A) → r ≡ ok a → Adds OK (f a))
      → IsAfter OK s (continue r f s).1
  continued_each (ok a) s f h = (h a refl).from s
  continued_each (err e) s f h = IsAfter-refl OK s

  pub Adds-each :
      (m : Exec (Trace W Call) E A) (f : A → Exec (Trace W Call) E B)
      → Adds OK m
      → ((a : A) (s : Trace W Call) → (m s).0 ≡ ok a → Adds OK (f a))
      → Adds OK (m >>= f)
  Adds-each m f h k = record {
    from = λ s.
        IsAfter-trans OK s (m s).1 ((m >>= f) s).1 (h.from s)
          (continued_each (m s).0 (m s).1 f (λ a e. k a s e));
  }

-- A part that always returns the same.
module _ {W E A B : Type 0} (OK : Call → Type 0) where
  continued_at :
      (r : Result E A) (s : Trace W Call) (f : A → Exec (Trace W Call) E B) (a : A)
      → r ≡ ok a
      → Adds OK (f a)
      → IsAfter OK s (continue r f s).1
  continued_at (ok b) s f a e h = let same : a ≡ b = ground (arith, e) in rw⁻¹ same (h.from s)
  continued_at (err b) s f a e h = absurd (ground (arith, e))

  pub Adds-then :
      (m : Exec (Trace W Call) E A) (f : A → Exec (Trace W Call) E B) (a : A)
      → Adds OK m
      → ((s : Trace W Call) → (m s).0 ≡ ok a)
      → Adds OK (f a)
      → Adds OK (m >>= f)
  Adds-then m f a h e k = record {
    from = λ s.
        IsAfter-trans OK s (m s).1 ((m >>= f) s).1 (h.from s)
          (continued_at (m s).0 (m s).1 f a (e s) k);
  }

All-map :
    {A : Type 0} {P Q : A → Type 0} → ((a : A) → P a → Q a) → (xs : List A) → All P xs → All Q xs
All-map f [] h = tt
All-map f (x ∷ xs) h = (f x h.0, All-map f xs h.1)

pub Adds-Adds :
    {W E A : Type 0} {P Q : Call → Type 0} {m : Exec (Trace W Call) E A}
    → ((c : Call) → P c → Q c)
    → Adds P m
    → Adds Q m
Adds-Adds f h = record { from = λ s. let (new, e, all) = h.from s in (new, e, All-map f new all) }
