-- ===== src/ImageBuilder/Pods.antt =====
-- The build pods of prow/cmd/image-builder/buildcontroller.go. What is the same for all pods is left out:
-- the restart policy and the resource requests. The node selector, the tolerations and the labels that are
-- copied are one value of a type `P`; `today` is the date as %Y%m%d, `sha256` prints a hash in hexadecimal
-- digits, `path_join` is path.Join, and `first_line` reads the first line of a file, which is empty if there
-- is none.
pub mod Defining
pub mod Names
pub mod Destinations
pub mod Groups
pub mod Plans
use ci_infra_gardener.Prelude.{
  ℕ, ◌+◌, Bool, true, false, not, ◌&&◌, ◌||◌, Option, none, some, List, [], ◌∷◌, ◌++◌, Text, codes,
  ◌==◌, take, length, leb, ltb, map, if◌then◌else◌, Exec, Result, ok, err, map_err, then_result,
  pure, raise, wrap, ◌>>=◌, ◌>>◌,
}
use ci_infra_gardener.ImageBuilder.Options.{Options, is_empty}

pub data Mount : Type 0 where
  mount : (name path sub_path : Text) → Mount

pub data Volume : Type 0 where
  empty_dir : (name : Text) → Volume
  secret claim : (name source : Text) → Volume

pub record Container : Type 0 where
  pub name : Text
  pub image : Text
  pub env : List (Text × Text)
  pub args : List Text
  pub mounts : List Mount

pub record Pod (P : Type 0) : Type 0 where
  pub name : Text
  pub namespace : Text
  pub volumes : List Volume
  pub containers : List Container
  pub placement : P

-- The image-builder pod, as far as it is read.
pub record BuilderPod (P : Type 0) : Type 0 where
  pub name : Text
  pub namespace : Text
  pub uid : Text
  pub init_containers : List Container
  pub placement : P

pub record BuildPod (P : Type 0) : Type 0 where
  pub pod : Pod P
  pub build_group : Text

pub record Variant : Type 0 where
  pub name : Option Text
  pub build_args : List (Text × Text)

pub data PodError (E : Type 0) : Type 0 where
  reading_version reading_variants setting_reference : E → PodError E
  no_version incorrect_sha no_clonerefs : PodError E

abbrev pub code_volume : Text
code_volume = codes "code"

abbrev pub docker_config_volume : Text
docker_config_volume = codes "docker-config"

abbrev pub go_src_path : Text
go_src_path = codes "/home/prow/go/src"

abbrev pub clonerefs : Text
clonerefs = codes "clonerefs"

abbrev pub clonerefs_env : Text
clonerefs_env = codes "CLONEREFS_OPTIONS"

abbrev pub dashed : Text → Text → Text
dashed a b = a ++ (codes "-" ++ b)

-- What the definition of pods asks the file system and Kubernetes.
pub record Sources (W E P : Type 0) : Type 0 where
  pub first_line : (path : Text) → Exec W E Text
  pub read_variants : (path : Text) → Exec W E (List (Text × List (Text × Text)))
  pub set_controller_reference : BuilderPod P → Pod P → Result E (Unit {0})
  pub sha256 : Text → Text
  pub today : Text
  pub path_join : Text → Text → Text

module _ {W E P : Type 0} (sources : Sources W E P) (options : Options) where
  abbrev pub Action : Type 0 → Type 0
  Action A = Exec W (PodError E) A

  unfoldable pub get_build_pod_name : (parent target : Text) → Text
  get_build_pod_name parent target =
      let suffix = dashed options.repo target in
      let parent_suffix = dashed parent suffix in
      if leb (length parent + length suffix) 64
      then parent_suffix
      else if leb (length parent + 9) 64
      then take 64 (dashed (take 59 parent_suffix) (sources.sha256 suffix))
      else sources.sha256 parent_suffix

  abbrev pub destination : (target tag : Text) → Text
  destination target tag =
      codes "--destination=" ++ (options.registry ++ (codes "/" ++ (target ++ (codes ":" ++ tag))))

  unfoldable pub validate_head_sha : Result (PodError E) (Unit {0})
  validate_head_sha = if ltb (length options.head_sha) 7 then err incorrect_sha else ok tt

  abbrev pub date_sha_tag : Text
  date_sha_tag = codes "v" ++ dashed sources.today (take 7 options.head_sha)

  -- The first part of defineDestinations, from a version; the effective version is a build argument.
  unfoldable pub version_destinations : (target version : Text) → List Text
  version_destinations target version =
      let effective_version = dashed version options.head_sha in
      (if options.add_version_tag then destination target version ∷ [] else [])
      ++ ((if options.add_version_sha_tag then destination target effective_version ∷ [] else [])
          ++ (if options.inject_effective_version
              then (codes "--build-arg=EFFECTIVE_VERSION=" ++ effective_version) ∷ []
              else []))

  unfoldable pub version_of : Text → Result (PodError E) Text
  version_of line = if is_empty line then err no_version else ok line

  abbrev pub read_version : Action Text
  read_version = wrap reading_version (
      sources.first_line
        (codes "github.com/" ++ (options.org ++ (codes "/" ++ (options.repo ++ codes "/VERSION")))))

  abbrev pub wants_version : Bool
  wants_version =
      options.add_version_tag || options.add_version_sha_tag || options.inject_effective_version

  unfoldable pub with_version : (target : Text) → Action (List Text)
  with_version target =
      if wants_version
      then (do
        line ← read_version
        version ← λ w. (version_of line, w)
        pure (version_destinations target version))
      else pure []

  -- A loop that makes a tag from the date and the commit for each text.
  unfoldable pub date_destinations :
      (target : Text) → (Text → Text) → List Text → Result (PodError E) (List Text)
  unfolding validate_head_sha
  date_destinations target tag [] = ok []
  date_destinations target tag (text ∷ texts) = then_result validate_head_sha λ _.
      then_result (date_destinations target tag texts)
        λ rest. ok (destination target (tag text) ∷ rest)

  unfoldable pub date_sha_destination : (target : Text) → Result (PodError E) (List Text)
  unfolding validate_head_sha
  date_sha_destination target =
      if options.add_date_sha_tag
      then then_result validate_head_sha (λ _. ok (destination target date_sha_tag ∷ []))
      else ok []

  unfoldable pub define_destinations : (target : Text) → Action (List Text)
  define_destinations target = do
    versions ← with_version target
    dated ← λ w. (date_sha_destination target, w)
    prefixed ← λ w. (
      date_destinations target (λ prefix. dashed prefix date_sha_tag)
          options.add_date_sha_tag_with_prefix,
      w,
    )
    suffixed ← λ w. (
      date_destinations target (λ suffix. dashed date_sha_tag suffix)
          options.add_date_sha_tag_with_suffix,
      w,
    )
    pure (
        versions
        ++ (dated ++ (prefixed ++ (suffixed ++ map (destination target) options.add_fixed_tags))))

  unfoldable pub define_destinations_for_variant :
      (target variant : Text) → Result (PodError E) (List Text)
  unfolding validate_head_sha
  define_destinations_for_variant target variant =
      then_result validate_head_sha
        λ _. ok (destination target (dashed date_sha_tag variant) ∷ destination target variant ∷ [])
