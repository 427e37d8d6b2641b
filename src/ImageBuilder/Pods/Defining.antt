-- ===== src/ImageBuilder/Pods/Defining.antt =====
-- The definition of the build pods: defineBuildPods of prow/cmd/image-builder/buildcontroller.go and what it
-- calls. `builder` is the name of the image-builder pod that the reconciler knows.
use ci_infra_gardener.Prelude.{
  Bool, true, false, not, ◌&&◌, Option, none, some, List, [], ◌∷◌, ◌++◌, Text, codes, ◌==◌, map,
  if◌then◌else◌, Exec, Result, ok, err, map_err, then_result, pure, wrap, ◌>>=◌, ◌>>◌,
}
use ci_infra_gardener.ImageBuilder.Options.{Options, is_empty}
use ci_infra_gardener.ImageBuilder.Pods.{
  mount, Volume, empty_dir, secret, claim, Container, Pod, BuilderPod, BuildPod, Variant, PodError,
  reading_variants, setting_reference, no_clonerefs, code_volume, docker_config_volume, go_src_path,
  clonerefs, clonerefs_env, dashed, Sources, get_build_pod_name, define_destinations,
  define_destinations_for_variant,
}

module _ {W E P : Type 0} (sources : Sources W E P) (options : Options) where
  abbrev Action : Type 0 → Type 0
  Action A = Exec W (PodError E) A

  -- The PVC has the name of the image-builder pod.
  abbrev pub with_claim : (builder : Text) → List Volume → List Volume
  with_claim builder volumes = volumes ++ claim code_volume builder ∷ []

  unfoldable pub find_env : Text → List (Text × Text) → Option Text
  find_env name [] = none
  find_env name ((n, value) ∷ env) = if n == name then some value else find_env name env

  -- The container that is copied from the first clonerefs init container with the variable.
  unfoldable pub clonerefs_container : List Container → Option Container
  unfolding find_env
  clonerefs_container [] = none
  clonerefs_container (ic ∷ ics) =
      let rest = clonerefs_container ics in
      if ic.name == clonerefs
      then elim (find_env clonerefs_env ic.env) [
        | none ↦ rest
        | some value ↦ some (record {
          name = ic.name;
          image = ic.image;
          env = (clonerefs_env, value) ∷ [];
          args = [];
          mounts =
              mount code_volume
                (go_src_path
                  ++ (codes "/github.com/" ++ (options.org ++ (codes "/" ++ options.repo))))
                (codes "code")
              ∷ mount (codes "logs") (codes "/logs") []
              ∷ [];
        })
      ]
      else rest

  -- The reference is set before the containers are added, which it does not depend on.
  unfoldable pub define_clone_refs_pod :
      (builder : Text) → BuilderPod P → Result (PodError E) (Pod P)
  define_clone_refs_pod builder ib_pod =
      let base : Pod P = record {
        name = get_build_pod_name sources options ib_pod.name clonerefs;
        namespace = ib_pod.namespace;
        volumes = with_claim builder (empty_dir (codes "logs") ∷ []);
        containers = [];
        placement = ib_pod.placement;
      } in
      then_result (map_err setting_reference (sources.set_controller_reference ib_pod base)) λ _.
        elim (clonerefs_container ib_pod.init_containers) [
          | none ↦ err no_clonerefs
          | some c ↦ ok (record base { containers = c ∷ [] })
        ]

  abbrev pub variant_text : Variant → Text → Text
  variant_text variant target = elim variant.name [ none ↦ target | some name ↦ dashed name target ]

  abbrev pub build_arg : Text × Text → Text
  build_arg (arg, value) = codes "--build-arg=" ++ (arg ++ (codes "=" ++ value))

  abbrev pub dockerfile_of : Variant → Text
  dockerfile_of variant = elim variant.name [
    | none ↦ options.dockerfile
    | some _ ↦ options.context ++ (codes "/" ++ options.dockerfile)
  ]

  unfoldable pub destinations_of : Variant → (target : Text) → Action (List Text)
  destinations_of variant target = elim variant.name [
    | none ↦ define_destinations sources options target
    | some name ↦ λ w. (define_destinations_for_variant sources options target name, w)
  ]

  unfoldable pub kaniko_container :
      Variant → (target : Text) → (destinations : List Text) → Container
  kaniko_container variant target destinations = record {
    name = codes "kaniko";
    image = options.kaniko_image;
    env = [];
    args =
        codes "--skip-unused-stages"
        ∷ codes "--context=/code"
        ∷ (codes "--dockerfile=" ++ dockerfile_of variant)
        ∷ (codes "--target=" ++ target)
        ∷ (destinations
            ++ (options.kaniko_args
                ++ (map build_arg variant.build_args
                    ++ (if is_empty options.cache_registry
                        then []
                        else codes "--cache=true"
                          ∷ (codes "--cache-repo=" ++ options.cache_registry)
                          ∷ []))));
    mounts =
        mount code_volume (codes "/code") (codes "code")
        ∷ mount docker_config_volume (codes "/kaniko/.docker") []
        ∷ [];
  }

  unfoldable pub define_pod_for_target :
      (builder : Text) → BuilderPod P → (target : Text) → Variant → Action (Pod P)
  unfolding kaniko_container get_build_pod_name
  define_pod_for_target builder ib_pod target variant = do
    destinations ← destinations_of variant target
    let pod : Pod P = record {
      name = get_build_pod_name sources options ib_pod.name (variant_text variant target);
      namespace = ib_pod.namespace;
      volumes = with_claim builder (secret docker_config_volume options.docker_config_secret ∷ []);
      containers = kaniko_container variant target destinations ∷ [];
      placement = ib_pod.placement;
    }
    λ w. (map_err setting_reference (sources.set_controller_reference ib_pod pod), w)
    pure pod

  unfoldable pub select_variants : List (Text × List (Text × Text)) → List Variant
  select_variants [] = []
  select_variants ((variant, build_args) ∷ variants) =
      let rest = select_variants variants in
      if not (is_empty options.build_variant) && not (variant == options.build_variant)
      then rest
      else record { name = some variant; build_args = build_args } ∷ rest

  unfoldable pub get_variants : Action (List Variant)
  unfolding select_variants
  get_variants = do
    variants ←
        wrap reading_variants
          (sources.read_variants (sources.path_join options.context (codes "variants.yaml")))
    pure (select_variants variants)

  -- One variant without a name if there is no context.
  abbrev pub variants_of : Action (List Variant)
  variants_of =
      if is_empty options.context
      then pure (record { name = none; build_args = [] } ∷ [])
      else get_variants

  unfoldable pub build_group_of : Variant → (first : Bool) → Text
  build_group_of variant first =
      if first && not (is_empty options.cache_registry)
      then elim variant.name [
        | none ↦ codes "createCache"
        | some name ↦ dashed (codes "createCache") name
      ]
      else codes "parallelBuild"

  unfoldable pub define_for_targets :
      (builder : Text)
      → BuilderPod P
      → Variant
      → (first : Bool) → List Text
      → Action (List (BuildPod P))
  unfolding build_group_of
  define_for_targets builder ib_pod variant first [] = pure []
  define_for_targets builder ib_pod variant first (target ∷ targets) = do
    pod ← define_pod_for_target builder ib_pod target variant
    rest ← define_for_targets builder ib_pod variant false targets
    pure (record { pod = pod; build_group = build_group_of variant first } ∷ rest)

  unfoldable pub define_for_variants :
      (builder : Text) → BuilderPod P → List Variant → Action (List (BuildPod P))
  define_for_variants builder ib_pod [] = pure []
  define_for_variants builder ib_pod (variant ∷ variants) = do
    pods ← define_for_targets builder ib_pod variant true options.targets
    rest ← define_for_variants builder ib_pod variants
    pure (pods ++ rest)

  unfoldable pub define_build_pods : (builder : Text) → BuilderPod P → Action (List (BuildPod P))
  define_build_pods builder ib_pod = do
    clonerefs_pod ← λ w. (define_clone_refs_pod builder ib_pod, w)
    variants ← variants_of
    pods ← define_for_variants builder ib_pod variants
    pure (record { pod = clonerefs_pod; build_group = clonerefs } ∷ pods)
