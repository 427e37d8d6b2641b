-- ===== src/ImageBuilder/Controller/Invariants.antt =====
-- What holds of the build controller of prow/cmd/image-builder/buildcontroller.go between two requests, and
-- is kept by each part of Reconcile. `k` is the number of requests that failed.
use ci_infra_gardener.Prelude.{
  ℕ, suc, ◌+◌, ◌≤◌, ◌≡◌, ◌≢◌, refl, sym, ap, subst, ◌∙◌, inl, inr, ◌⊎◌, Bool, true, false, Option,
  none, some, List, [], ◌∷◌, arith, ltb, if◌then◌else◌, Bool-cases,
}
use ci_infra_gardener.ImageBuilder.Options.{Options, is_empty}
use ci_infra_gardener.ImageBuilder.Pods.{BuilderPod, BuildPod, Sources}
use ci_infra_gardener.ImageBuilder.Pods.Plans.{IsPlan}
use ci_infra_gardener.ImageBuilder.Controller.{
  NamespacedName, Failure, State, stop, handle_error, max_errors, terminate,
}
use ci_infra_gardener.ImageBuilder.Controller.Keeping.{is_known, terminations, IsNoted, IsLater}
use ci_infra_gardener.ImageBuilder.Controller.Starting.{missing, missing-IsLater}

-- All build pods were started.
abbrev pub IsComplete : {W E P : Type 0} → State W E P → Type 0
IsComplete s = (is_empty s.build_pods ≡ false) × (missing s s.build_pods ≡ 0)

IsComplete-IsLater :
    {W E P : Type 0} (s t : State W E P) → IsLater s t → IsComplete s → IsComplete t
IsComplete-IsLater s t h (full, zero_missing) = (
  ap is_empty h.build_pods ∙ full,
  ap (missing t) h.build_pods ∙ omega (arith, zero_missing, missing-IsLater s t s.build_pods h),
)

module _ {W E P : Type 0} (sources : Sources W E P) (options : Options) where
  -- The pods are a plan for some image-builder pod, with the variants that could be read at the time.
  abbrev pub IsPlanned : List (BuildPod P) → Type 0
  IsPlanned pods = (ib_pod : BuilderPod P) × (w : W) × IsPlan sources options ib_pod w pods

  pub record IsConsistent (k : ℕ) (s : State W E P) : Type 0 where
    pub counted : s.error_count ≡ k
    pub terminated : terminations s.calls ≡ (if s.canceled then 1 else 0)
    pub running : (s.error ≡ none) ⊎ (s.canceled ≡ true)
    pub complete : (s.canceled ≡ false) ⊎ ((s.error ≢ none) ⊎ IsComplete s)
    pub planned : (s.build_pods ≡ []) ⊎ IsPlanned s.build_pods
    pub noted : (name : NamespacedName) → is_known s name ≡ true → IsNoted name s.calls

  -- After more than five failures the build is canceled.
  abbrev pub IsSound : (k : ℕ) → State W E P → Type 0
  IsSound k s = IsConsistent k s × ((k ≤ 5) ⊎ (s.canceled ≡ true))

  IsConsistent-IsLater :
      (k : ℕ) (s t : State W E P) → IsLater s t → IsConsistent k s → IsConsistent k t
  IsConsistent-IsLater k s t h i = record {
    counted = h.error_count ∙ i.counted;
    terminated = h.terminations ∙ (i.terminated ∙ ap (λ c. if c then 1 else 0) (sym h.canceled));
    running = elim i.running [ inl e ↦ inl (h.error ∙ e) | inr c ↦ inr (h.canceled ∙ c) ];
    complete = elim i.complete [
      | inl running ↦ inl (h.canceled ∙ running)
      | inr (inl failed) ↦ inr (inl λ e. failed (sym h.error ∙ e))
      | inr (inr all) ↦ inr (inr (IsComplete-IsLater s t h all))
    ];
    planned = subst (λ pods. (pods ≡ []) ⊎ IsPlanned pods) (sym h.build_pods) i.planned;
    noted = λ name k. elim (h.noted name k) [
      | inl before ↦ h.kept name (i.noted name before)
      | inr n ↦ n
    ];
  }

  pub IsSound-IsLater : (k : ℕ) (s t : State W E P) → IsLater s t → IsSound k s → IsSound k t
  IsSound-IsLater k s t h (i, bounded) = (
    IsConsistent-IsLater k s t h i,
    elim bounded [ inl few ↦ inl few | inr c ↦ inr (h.canceled ∙ c) ],
  )

  -- Where no error is given, all pods were started.
  pub IsSound-stop :
      (k : ℕ) (e : Option (Failure E)) (s : State W E P)
      → (e ≢ none) ⊎ IsComplete s
      → IsConsistent k s
      → IsSound k (stop e s)
  unfolding stop
  IsSound-stop k e s why i = decided s.canceled refl
    where
      complete_of :
          (e : Option (Failure E))
          → (e ≢ none) ⊎ IsComplete s
          → (elim e [ none ↦ s.error | some f ↦ some f ] ≢ none) ⊎ IsComplete s
      complete_of none (inl h) = absurd (h refl)
      complete_of none (inr all) = inr all
      complete_of (some f) h = inl λ e. ground (arith, e)

      decided :
          (b : Bool)
          → s.canceled ≡ b
          → IsSound k (
              if b then s else (record s {
                error = elim e [ none ↦ s.error | some f ↦ some f ];
                calls = terminate ∷ s.calls;
                canceled = true;
              }))
      decided true c = (i, inr c)
      decided false c = (
        record {
          counted = i.counted;
          terminated = ground (arith, i.terminated, c);
          running = inr refl;
          complete = inr (complete_of e why);
          planned = i.planned;
          noted = i.noted;
        },
        inr refl,
      )

  pub IsSound-handle_error :
      (k : ℕ) (e : Failure E) (s : State W E P) → IsSound k s → IsSound (suc k) (handle_error e s)
  unfolding handle_error
  IsSound-handle_error k e s (i, bounded) =
      let counted = record s { error_count = s.error_count + 1 } in
      let next : IsConsistent (suc k) counted = record {
        counted = omega (arith, i.counted);
        terminated = i.terminated;
        running = i.running;
        complete = i.complete;
        planned = i.planned;
        noted = i.noted;
      } in
      elim (Bool-cases (ltb max_errors (s.error_count + 1))) [
        | inl many ↦
            rw many (IsSound-stop (suc k) (some e) counted (inl λ n. ground (arith, n)) next)
        | inr few ↦ rw few (next, inl (ground (arith, few, i.counted)))
      ]
