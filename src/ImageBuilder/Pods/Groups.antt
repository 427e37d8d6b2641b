-- ===== src/ImageBuilder/Pods/Groups.antt =====
-- Which pods are built, and in which groups: defineBuildPods of
-- prow/cmd/image-builder/buildcontroller.go.
use ci_infra_gardener.Prelude.{
  ◌≡◌, ◌≢◌, refl, sym, subst, inl, inr, Bool, true, false, not, ◌&&◌, Option, none, some, List, [],
  ◌∷◌, ◌++◌, arith, Text, All, All-append, Bool-cases, Result, ok, err, Gives, Returns, Any-Gives,
  lift-Gives, pure-Gives, bind-Gives,
}
use ci_infra_gardener.ImageBuilder.Options.{Options, is_empty}
use ci_infra_gardener.ImageBuilder.Pods.{
  Pod, BuilderPod, BuildPod, Variant, PodError, Sources, clonerefs, get_build_pod_name, secret,
  docker_config_volume, define_destinations, define_destinations_for_variant,
}
use ci_infra_gardener.ImageBuilder.Pods.Defining.{
  build_group_of, define_pod_for_target, define_for_targets, define_for_variants, with_claim,
  variant_text, kaniko_container, destinations_of,
}

module _ {W E P : Type 0} (sources : Sources W E P) (options : Options) where
  -- A pod that builds an image: its group has a name and is not that of the clone.
  abbrev pub IsBuild : BuildPod P → Type 0
  IsBuild p = (is_empty p.build_group ≡ false) × (p.build_group ≢ clonerefs)

  group_of-IsOther :
      (variant : Variant) (first : Bool)
      → (is_empty (build_group_of sources options variant first) ≡ false)
        × (build_group_of sources options variant first ≢ clonerefs)
  unfolding build_group_of
  group_of-IsOther variant first =
      elim (Bool-cases (first && not (is_empty options.cache_registry))) [
        | inl b ↦ (ground (arith, b), λ e. ground (arith, e, b))
        | inr b ↦ (ground (arith, b), λ e. ground (arith, e, b))
      ]

  -- With which destinations kaniko is called: those of the target, found in some world, or those of the
  -- target and the variant.
  abbrev pub AreDestinations : Variant → (target : Text) → List Text → Type 0
  AreDestinations variant target destinations = elim variant.name [
    | none ↦ (w : W) × ((define_destinations sources options target w).0 ≡ ok destinations)
    | some name ↦ define_destinations_for_variant sources options target name ≡ ok destinations
  ]

  abbrev pub HasContainer : Variant → (target : Text) → Pod P → Type 0
  HasContainer variant target pod =
      (destinations : List Text) × AreDestinations variant target destinations
      × (pod.containers ≡ kaniko_container sources options variant target destinations ∷ [])

  -- The pod that builds a target in a variant: its name, and kaniko as its container.
  abbrev pub IsPodFor : BuilderPod P → Variant → (target : Text) → Pod P → Type 0
  IsPodFor ib_pod variant target pod =
      (pod.name
        ≡ get_build_pod_name sources options ib_pod.name
            (variant_text sources options variant target))
      × HasContainer variant target pod

  -- One pod for each target, in order; the first of them may fill the cache.
  abbrev pub ArePodsFor :
      BuilderPod P → Variant → (first : Bool) → List Text → List (BuildPod P) → Type 0
  ArePodsFor ib_pod variant first [] [] = Unit
  ArePodsFor ib_pod variant first (target ∷ targets) (p ∷ pods) =
      IsPodFor ib_pod variant target p.pod
      × (p.build_group ≡ build_group_of sources options variant first)
      × ArePodsFor ib_pod variant false targets pods
  ArePodsFor ib_pod variant first _ _ = ⊥

  -- For each variant, in order, the pods of all targets.
  abbrev pub AreBuilds : BuilderPod P → List Variant → List (BuildPod P) → Type 0
  AreBuilds ib_pod [] pods = pods ≡ []
  AreBuilds ib_pod (variant ∷ variants) pods =
      (own rest : List (BuildPod P)) × (pods ≡ own ++ rest)
      × ArePodsFor ib_pod variant true options.targets own
      × AreBuilds ib_pod variants rest

  destinations_of-AreDestinations :
      (variant : Variant) (target : Text)
      → Gives (AreDestinations variant target) (destinations_of sources options variant target)
  unfolding destinations_of
  destinations_of-AreDestinations variant target = of_name variant.name
    where
      returned :
          (r : Result (PodError E) (List Text)) → Returns (λ destinations. r ≡ ok destinations) r
      returned (ok destinations) = record { holds = refl }
      returned (err e) = record { holds = tt }

      found :
          (w : W) (r : Result (PodError E) (List Text))
          → (define_destinations sources options target w).0 ≡ r
          → Returns
              (λ destinations.
                (w : W) × ((define_destinations sources options target w).0 ≡ ok destinations))
              r
      found w (ok destinations) e = record { holds = (w, e) }
      found w (err x) e = record { holds = tt }

      of_name :
          (name : Option Text)
          → Gives {S = W} {E = PodError E}
              (λ destinations. elim name [
                | none ↦
                    (w : W) × ((define_destinations sources options target w).0 ≡ ok destinations)
                | some n ↦
                    define_destinations_for_variant sources options target n ≡ ok destinations
              ])
              (elim name [
                | none ↦ define_destinations sources options target
                | some n ↦ λ w. (define_destinations_for_variant sources options target n, w)
              ])
      of_name none = record { from = λ w. found w _ refl }
      of_name (some n) = lift-Gives (returned _)

  -- The pod that define_pod_for_target returns.
  abbrev made_pod :
      (builder : Text) → BuilderPod P → Variant → (target : Text) (destinations : List Text) → Pod P
  made_pod builder ib_pod variant target destinations = record {
    name =
        get_build_pod_name sources options ib_pod.name
          (variant_text sources options variant target);
    namespace = ib_pod.namespace;
    volumes =
        with_claim sources options builder
          (secret docker_config_volume options.docker_config_secret ∷ []);
    containers = kaniko_container sources options variant target destinations ∷ [];
    placement = ib_pod.placement;
  }

  pod-IsPodFor :
      (builder : Text) (ib_pod : BuilderPod P) (target : Text) (variant : Variant)
      → Gives
          (IsPodFor ib_pod variant target)
          (define_pod_for_target sources options builder ib_pod target variant)
  unfolding define_pod_for_target
  pod-IsPodFor builder ib_pod target variant =
      bind-Gives (destinations_of sources options variant target)
        (destinations_of-AreDestinations variant target)
        λ destinations d. bind-Gives _ (Any-Gives _) λ _ _.
          pure-Gives (IsPodFor ib_pod variant target)
            (made_pod builder ib_pod variant target destinations) (refl, (destinations, d, refl))

  targets-ArePodsFor :
      (builder : Text) (ib_pod : BuilderPod P) (variant : Variant) (first : Bool)
      (targets : List Text)
      → Gives
          (ArePodsFor ib_pod variant first targets)
          (define_for_targets sources options builder ib_pod variant first targets)
  unfolding define_for_targets
  targets-ArePodsFor builder ib_pod variant first [] = pure-Gives _ [] tt
  targets-ArePodsFor builder ib_pod variant first (target ∷ targets) =
      bind-Gives (define_pod_for_target sources options builder ib_pod target variant)
        (pod-IsPodFor builder ib_pod target variant)
        λ pod h.
          bind-Gives (define_for_targets sources options builder ib_pod variant false targets)
            (targets-ArePodsFor builder ib_pod variant false targets)
            λ rest k. pure-Gives _ _ (h, refl, k)

  pub variants-AreBuilds :
      (builder : Text) (ib_pod : BuilderPod P) (variants : List Variant)
      → Gives
          (AreBuilds ib_pod variants)
          (define_for_variants sources options builder ib_pod variants)
  unfolding define_for_variants
  variants-AreBuilds builder ib_pod [] = pure-Gives _ [] refl
  variants-AreBuilds builder ib_pod (variant ∷ variants) =
      bind-Gives (define_for_targets sources options builder ib_pod variant true options.targets)
        (targets-ArePodsFor builder ib_pod variant true options.targets)
        λ pods h.
          bind-Gives (define_for_variants sources options builder ib_pod variants)
            (variants-AreBuilds builder ib_pod variants)
            λ rest k. pure-Gives _ _ (pods, rest, refl, h, k)

  pub AreBuilds-IsBuild :
      (ib_pod : BuilderPod P) (variants : List Variant) (pods : List (BuildPod P))
      → AreBuilds ib_pod variants pods
      → All IsBuild pods
  AreBuilds-IsBuild ib_pod [] pods h = subst (All IsBuild) (sym h) tt
  AreBuilds-IsBuild ib_pod (variant ∷ variants) pods (own, rest, e, h, k) =
      subst (All IsBuild) (sym e) (
        All-append IsBuild own rest (own-IsBuild true options.targets own h)
          (AreBuilds-IsBuild ib_pod variants rest k))
    where
      own-IsBuild :
          (first : Bool) (targets : List Text) (ps : List (BuildPod P))
          → ArePodsFor ib_pod variant first targets ps
          → All IsBuild ps
      own-IsBuild first [] [] h = tt
      own-IsBuild first (target ∷ targets) (p ∷ ps) (_, group, h) = (
        subst (λ g. (is_empty g ≡ false) × (g ≢ clonerefs)) (sym group)
            (group_of-IsOther variant first),
        own-IsBuild false targets ps h,
      )
      own-IsBuild first [] (p ∷ ps) h = absurd h
      own-IsBuild first (target ∷ targets) [] h = absurd h
