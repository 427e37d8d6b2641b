-- ===== src/ImageBuilder/Options.antt =====
-- The options of prow/cmd/image-builder/main.go and their validation.
use ci_infra_gardener.Prelude.{
  ◌≡◌, refl, ◌↔◌, ◌⊎◌, Bool, true, false, not, ◌&&◌, ◌||◌, Option, none, some, List, [], ◌∷◌, arith,
  Text, codes, has_prefix, any, if◌then◌else◌, Result, ok, err,
}

pub record Options : Type 0 where
  pub docker_config_secret : Text
  pub org : Text
  pub repo : Text
  pub head_sha : Text
  pub context : Text
  pub dockerfile : Text
  pub targets : List Text
  pub kaniko_args : List Text
  pub build_variant : Text
  pub registry : Text
  pub cache_registry : Text
  pub kaniko_image : Text
  pub add_version_tag : Bool
  pub add_version_sha_tag : Bool
  pub add_date_sha_tag : Bool
  pub add_date_sha_tag_with_prefix : List Text
  pub add_date_sha_tag_with_suffix : List Text
  pub add_fixed_tags : List Text
  pub inject_effective_version : Bool

pub data OptionError : Type 0 where
  empty_dockerfile variant_without_context empty_docker_config_secret no_target empty_registry :
      OptionError
  no_tagging_scheme tags_with_context empty_head_sha : OptionError
  cache_argument destination_argument dockerfile_argument : OptionError

abbrev pub is_empty : {A : Type 0} → List A → Bool
is_empty [] = true
is_empty (x ∷ xs) = false

-- Is one of the tagging options set that Validate asks for?
unfoldable pub has_tagging_scheme : Options → Bool
has_tagging_scheme o =
    o.add_version_tag
    || o.add_version_sha_tag
    || o.add_date_sha_tag
    || not (is_empty o.add_fixed_tags)

unfoldable pub validate_kaniko_arg : Text → Option OptionError
validate_kaniko_arg arg =
    if has_prefix arg (codes "--cache=") || has_prefix arg (codes "--cache-repo=")
    then some cache_argument
    else if has_prefix arg (codes "--destination=") || has_prefix arg (codes "--target=")
    then some destination_argument
    else if has_prefix arg (codes "--dockerfile=")
    then some dockerfile_argument
    else none

-- The loop over the arguments of kaniko; `none` is nil.
unfoldable pub validate_kaniko_args : List Text → Option OptionError
validate_kaniko_args [] = none
validate_kaniko_args (arg ∷ args) = elim (validate_kaniko_arg arg) [
  | some e ↦ some e
  | none ↦ validate_kaniko_args args
]

unfoldable pub validate : Options → Option OptionError
validate o =
    if is_empty o.dockerfile
    then some empty_dockerfile
    else if not (is_empty o.build_variant) && is_empty o.context
    then some variant_without_context
    else if is_empty o.docker_config_secret
    then some empty_docker_config_secret
    else if is_empty o.targets
    then some no_target
    else if is_empty o.registry
    then some empty_registry
    else if not (has_tagging_scheme o) && is_empty o.context
    then some no_tagging_scheme
    else if has_tagging_scheme o && not (is_empty o.context)
    then some tags_with_context
    else if is_empty o.head_sha
    then some empty_head_sha
    else validate_kaniko_args o.kaniko_args

-- The arguments of kaniko that are refused. (--context=, which the image builder sets too, is not.)
abbrev pub reserved : List Text
reserved =
    codes "--cache="
    ∷ codes "--cache-repo="
    ∷ codes "--destination="
    ∷ codes "--target="
    ∷ codes "--dockerfile="
    ∷ []

abbrev pub is_reserved : Text → Bool
is_reserved arg = any (has_prefix arg) reserved

kaniko_args_iff :
    (args : List Text) → (validate_kaniko_args args ≡ none) ↔ (any is_reserved args ≡ false)
unfolding validate_kaniko_args validate_kaniko_arg any
kaniko_args_iff [] = (λ h. refl, λ h. refl)
kaniko_args_iff (arg ∷ args) =
    (λ h. ground (arith, kaniko_args_iff args), λ h. ground (arith, kaniko_args_iff args))

pub record IsValid (o : Options) : Type 0 where
  pub has_dockerfile : is_empty o.dockerfile ≡ false
  pub has_secret : is_empty o.docker_config_secret ≡ false
  pub has_targets : is_empty o.targets ≡ false
  pub has_registry : is_empty o.registry ≡ false
  pub has_sha : is_empty o.head_sha ≡ false
  pub tagged_without_context : has_tagging_scheme o ≡ is_empty o.context
  pub variant_in_context : (is_empty o.build_variant ≡ true) ⊎ (is_empty o.context ≡ false)
  pub none_reserved : any is_reserved o.kaniko_args ≡ false

-- Options are accepted exactly if the Dockerfile, the secret, the targets, the registry and the commit are
-- given, either a context is given or one of the tag options that `has_tagging_scheme` looks at, but not both,
-- a build variant comes with a context, and no argument for kaniko starts with one of the five names in
-- `reserved`. The options for a date tag with a prefix or a suffix do not count as a tag option here, so that
-- they are accepted beside a context, and are refused where they are the only ones.
pub validate_iff : (o : Options) → (validate o ≡ none) ↔ IsValid o
unfolding validate
validate_iff o = (
  λ h. record {
    has_dockerfile = ground arith;
    has_secret = ground arith;
    has_targets = ground arith;
    has_registry = ground arith;
    has_sha = ground arith;
    tagged_without_context = ground arith;
    variant_in_context = ground arith;
    none_reserved = ground (arith, kaniko_args_iff o.kaniko_args);
  },
  λ v. ground (
    arith,
    v.has_dockerfile,
    v.has_secret,
    v.has_targets,
    v.has_registry,
    v.has_sha,
    v.tagged_without_context,
    v.variant_in_context,
    v.none_reserved,
    kaniko_args_iff o.kaniko_args,
  ),
)

-- The job that the image builder runs in, of which gatherOptions reads these fields.
pub data JobType : Type 0 where
  periodic batch postsubmit presubmit other_type : JobType

pub record JobSpec : Type 0 where
  pub job_type : JobType
  pub org : Text
  pub repo : Text
  pub base_sha : Text
  pub pull_shas : List Text

-- The process ends with an error, with success, in a panic, or it goes on.
pub data Gathered : Type 0 where
  fatal skipped panics : Gathered
  gathered : Options → Gathered

abbrev pub with_refs : JobSpec → (sha : Text) → Options → Options
with_refs spec sha o = record o { org = spec.org; repo = spec.repo; head_sha = sha }

unfoldable pub gather_job : JobSpec → Options → Gathered
gather_job spec o = elim spec.job_type [
  | periodic ↦ fatal
  | batch ↦ skipped
  | postsubmit ↦ gathered (with_refs spec spec.base_sha o)
  | presubmit ↦ elim spec.pull_shas [ [] ↦ panics | sha ∷ _ ↦ gathered (with_refs spec sha o) ]
  | other_type ↦ gathered o
]

-- getPodNamespace, from the first line of the file, which is empty if there is none.
unfoldable pub pod_namespace : {E : Type 0} → Result E Text → Option Text
pod_namespace (ok line) = if is_empty line then none else some line
pod_namespace (err e) = none
