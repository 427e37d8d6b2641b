-- ===== src/ImageBuilder/Pods/Destinations.antt =====
-- Where images are pushed to: defineDestinations of prow/cmd/image-builder/buildcontroller.go.
use ci_infra_gardener.Prelude.{
  ◌≡◌, refl, ◌⊎◌, inl, inr, Bool, true, false, List, [], ◌∷◌, ◌++◌, Text, codes, All, All-append,
  map, if◌then◌else◌, Returns, Gives, ok-Returns, Any-Gives, lift-Gives, pure-Gives, if-Returns,
  if-Gives, bind-Gives, Any-Returns, then_result-Returns,
}
use ci_infra_gardener.ImageBuilder.Options.{Options}
use ci_infra_gardener.ImageBuilder.Pods.{
  Sources, dashed, destination, validate_head_sha, version_destinations, version_of, wants_version,
  read_version, with_version, date_destinations, date_sha_destination, define_destinations,
}

module _ {W E P : Type 0} (sources : Sources W E P) (options : Options) where
  -- An image of the target in the configured registry, or the build argument of the effective version.
  abbrev pub IsOwn : (target : Text) → Text → Type 0
  IsOwn target arg =
      ((tag : Text) × (arg ≡ destination sources options target tag))
      ⊎ ((version : Text) × (arg
            ≡ codes "--build-arg=EFFECTIVE_VERSION=" ++ dashed version options.head_sha))

  IsOwn-destination : (target tag : Text) → IsOwn target (destination sources options target tag)
  IsOwn-destination target tag = inl (tag, refl)

  IsOwn-chosen :
      (target : Text) (b : Bool) (arg : Text)
      → IsOwn target arg
      → All (IsOwn target) (if b then arg ∷ [] else [])
  IsOwn-chosen target true arg h = (h, tt)
  IsOwn-chosen target false arg h = tt

  IsOwn-version_destinations :
      (target version : Text)
      → All (IsOwn target) (version_destinations sources options target version)
  unfolding version_destinations
  IsOwn-version_destinations target version =
      All-append _ _ _ (IsOwn-chosen target options.add_version_tag _ (IsOwn-destination target _))
        (All-append _ _ _
          (IsOwn-chosen target options.add_version_sha_tag _ (IsOwn-destination target _))
          (IsOwn-chosen target options.inject_effective_version _ (inr (version, refl))))

  IsOwn-fixed :
      (target : Text) (tags : List Text)
      → All (IsOwn target) (map (destination sources options target) tags)
  IsOwn-fixed target [] = tt
  IsOwn-fixed target (tag ∷ tags) = (IsOwn-destination target tag, IsOwn-fixed target tags)

  IsOwn-with_version :
      (target : Text) → Gives (All (IsOwn target)) (with_version sources options target)
  unfolding with_version
  IsOwn-with_version target =
      if-Gives (wants_version sources options)
        (bind-Gives (read_version sources options) (Any-Gives _) λ line _.
          bind-Gives (λ w. (version_of sources options line, w)) (Any-Gives _)
            λ version _. pure-Gives _ _ (IsOwn-version_destinations target version))
        (pure-Gives _ [] tt)

  IsOwn-date_sha :
      (target : Text) → Returns (All (IsOwn target)) (date_sha_destination sources options target)
  unfolding date_sha_destination
  IsOwn-date_sha target =
      if-Returns options.add_date_sha_tag
        (then_result-Returns (validate_head_sha sources options) (Any-Returns _)
          λ _ _. ok-Returns _ _ (IsOwn-destination target _, tt))
        (ok-Returns _ _ tt)

  IsOwn-dates :
      (target : Text) (tag : Text → Text) (texts : List Text)
      → Returns (All (IsOwn target)) (date_destinations sources options target tag texts)
  unfolding date_destinations
  IsOwn-dates target tag [] = ok-Returns _ _ tt
  IsOwn-dates target tag (text ∷ texts) =
      then_result-Returns (validate_head_sha sources options) (Any-Returns _) λ _ _.
        then_result-Returns (date_destinations sources options target tag texts)
          (IsOwn-dates target tag texts) λ rest h. ok-Returns _ _ (IsOwn-destination target _, h)

  -- Every destination of a target is a tag of its image in the configured registry; besides these there is
  -- only the build argument with the effective version.
  pub define_destinations-IsOwn :
      (target : Text) → Gives (All (IsOwn target)) (define_destinations sources options target)
  unfolding define_destinations
  define_destinations-IsOwn target = bind-Gives _ (IsOwn-with_version target) λ versions v.
      bind-Gives _ (lift-Gives (IsOwn-date_sha target)) λ dated d.
        bind-Gives _ (lift-Gives (IsOwn-dates target _ options.add_date_sha_tag_with_prefix))
          λ prefixed p.
            bind-Gives _ (lift-Gives (IsOwn-dates target _ options.add_date_sha_tag_with_suffix))
              λ suffixed s. pure-Gives _ _ (
                All-append _ _ _ v (
                  All-append _ _ _ d (
                    All-append _ _ _ p
                      (All-append _ _ _ s (IsOwn-fixed target options.add_fixed_tags)))))
