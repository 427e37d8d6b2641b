-- ===== src/ImageBuilder/Pods/Plans.antt =====
-- The whole plan of a build: defineBuildPods of prow/cmd/image-builder/buildcontroller.go.
use ci_infra_gardener.Prelude.{
  ◌≡◌, refl, sym, ap, ◌∙◌, ◌⊎◌, inl, inr, Bool, true, false, ◌||◌, Option, none, some, List, [],
  ◌∷◌, map, keep, arith, Text, codes, ◌==◌, All, Bool-cases, Result-cases, ok, err, map_err,
  Returns, Any, Any-Returns, ok_of_Returns, then_result-Returns, pure-Gives, bind-Gives,
}
use ci_infra_gardener.ImageBuilder.Options.{Options, is_empty}
use ci_infra_gardener.ImageBuilder.Pods.{
  Pod, BuilderPod, BuildPod, Variant, PodError, Sources, clonerefs, get_build_pod_name, Container,
  no_clonerefs, setting_reference, empty_dir,
}
use ci_infra_gardener.ImageBuilder.Pods.Defining.{
  define_for_variants, variants_of, with_claim, get_variants, select_variants, clonerefs_container,
  define_build_pods, define_clone_refs_pod,
}
use ci_infra_gardener.ImageBuilder.Pods.Groups.{
  IsBuild, AreBuilds, AreBuilds-IsBuild, variants-AreBuilds,
}

module _ {W E P : Type 0} (sources : Sources W E P) (options : Options) where
  abbrev pub unnamed : Variant
  unnamed = record { name = none; build_args = [] }

  abbrev pub of_entry : Text × List (Text × Text) → Variant
  of_entry entry = record { name = some entry.0; build_args = entry.1 }

  -- All variants, or those with the name that the options give.
  abbrev pub is_wanted : Text × List (Text × Text) → Bool
  is_wanted entry = is_empty options.build_variant || entry.0 == options.build_variant

  -- One variant without a name if there is no context; else the wanted ones of its variants.yaml.
  abbrev pub AreVariants : W → List Variant → Type 0
  AreVariants w variants =
      ((is_empty options.context ≡ true) × (variants ≡ unnamed ∷ []))
      ⊎ ((is_empty options.context ≡ false)
          × (listed : List (Text × List (Text × Text))) × ((sources.read_variants
                (sources.path_join options.context (codes "variants.yaml")) w).0
              ≡ ok listed)
          × (variants ≡ map of_entry (keep is_wanted listed)))

  select_variants_lem :
      (listed : List (Text × List (Text × Text)))
      → select_variants sources options listed ≡ map of_entry (keep is_wanted listed)
  unfolding select_variants keep
  select_variants_lem [] = refl
  select_variants_lem ((name, args) ∷ listed) = elim (Bool-cases (is_empty options.build_variant)) [
    | inl all ↦ rw all (ap (λ vs. of_entry (name, args) ∷ vs) (select_variants_lem listed))
    | inr one ↦ elim (Bool-cases (name == options.build_variant)) [
      | inl chosen ↦
          rw (one, chosen) (ap (λ vs. of_entry (name, args) ∷ vs) (select_variants_lem listed))
      | inr other ↦ rw (one, other) (select_variants_lem listed)
    ]
  ]

  variants_of-AreVariants :
      (w : W) (variants : List Variant)
      → (variants_of sources options w).0 ≡ ok variants
      → AreVariants w variants
  unfolding get_variants
  variants_of-AreVariants w variants h =
      let path = sources.path_join options.context (codes "variants.yaml") in
      elim (Bool-cases (is_empty options.context)) [
        | inl b ↦ inl (b, ground (arith, b, h))
        | inr b ↦ elim (Result-cases (sources.read_variants path w).0) [
          | inr (e, bad) ↦ ground (arith, b, bad, h)
          | inl (listed, good) ↦
              let e : select_variants sources options listed ≡ variants =
                ground (arith, b, good, h) in
              inr (b, listed, good, sym e ∙ select_variants_lem listed)
        ]
      ]

  -- A plan, for variants as they can be read in a world: the clone, and then the builds.
  abbrev pub IsPlan : BuilderPod P → W → List (BuildPod P) → Type 0
  IsPlan ib_pod w [] = ⊥
  IsPlan ib_pod w (first ∷ pods) =
      (first.build_group ≡ clonerefs)
      × (first.pod.name ≡ get_build_pod_name sources options ib_pod.name clonerefs)
      × All (IsBuild sources options) pods
      × (variants : List Variant) × AreVariants w variants
      × AreBuilds sources options ib_pod variants pods

  with_container-Returns :
      (name : Text) (base : Pod P) (container : Option Container)
      → base.name ≡ name
      → Returns {E = PodError E}
          (λ pod. pod.name ≡ name)
          (elim container [
            | none ↦ err no_clonerefs
            | some c ↦ ok (record base { containers = c ∷ [] })
          ])
  with_container-Returns name base none h = record { holds = tt }
  with_container-Returns name base (some c) h = record { holds = h }

  -- The clone's pod without its container.
  abbrev clone_base : (builder : Text) → BuilderPod P → Pod P
  clone_base builder ib_pod = record {
    name = get_build_pod_name sources options ib_pod.name clonerefs;
    namespace = ib_pod.namespace;
    volumes = with_claim sources options builder (empty_dir (codes "logs") ∷ []);
    containers = [];
    placement = ib_pod.placement;
  }

  clone_name :
      (builder : Text) (ib_pod : BuilderPod P)
      → Returns
          (λ pod. pod.name ≡ get_build_pod_name sources options ib_pod.name clonerefs)
          (define_clone_refs_pod sources options builder ib_pod)
  unfolding define_clone_refs_pod
  clone_name builder ib_pod =
      then_result-Returns {P = Any}
        (map_err setting_reference
          (sources.set_controller_reference ib_pod (clone_base builder ib_pod)))
        (Any-Returns _)
        λ _ _.
          with_container-Returns (get_build_pod_name sources options ib_pod.name clonerefs)
            (clone_base builder ib_pod) (clonerefs_container sources options ib_pod.init_containers)
            refl

  -- The pods are the clone of the repository, in a group of its own before all others, and then, for each
  -- variant and in it for each target, a pod with their name that runs kaniko for them. Without a context
  -- there is one variant, which has no name; with one the variants are those of its variants.yaml that the
  -- options ask for.
  pub define_build_pods-IsPlan :
      (builder : Text) (ib_pod : BuilderPod P) (w : W)
      → Returns (IsPlan ib_pod w) (define_build_pods sources options builder ib_pod w).0
  unfolding define_build_pods
  define_build_pods-IsPlan builder ib_pod w =
      elim (Result-cases (define_clone_refs_pod sources options builder ib_pod)) [
        | inr (e, bad) ↦ rw bad (record { holds = tt })
        | inl (clone, cloned) ↦ elim (Result-cases (variants_of sources options w).0) [
          | inr (e, bad) ↦ rw (cloned, bad) (record { holds = tt })
          | inl (variants, read) ↦
              rw (cloned, read)
                ((bind-Gives (define_for_variants sources options builder ib_pod variants)
                    (variants-AreBuilds sources options builder ib_pod variants)
                    λ pods h.
                      pure-Gives (IsPlan ib_pod w)
                        (record { pod = clone; build_group = clonerefs } ∷ pods)
                        (
                          refl,
                          ok_of_Returns (clone_name builder ib_pod) cloned,
                          AreBuilds-IsBuild sources options ib_pod variants pods h,
                          variants,
                          variants_of-AreVariants w variants read,
                          h,
                        )).from
                  (variants_of sources options w).1)
        ]
      ]
