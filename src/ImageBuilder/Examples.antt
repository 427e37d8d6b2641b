-- ===== src/ImageBuilder/Examples.antt =====
-- A build of two targets in a cluster where each pod succeeds, and one where each call fails, with the
-- theorems at them.
use ci_infra_gardener.Prelude.{
  ℕ, suc, ◌+◌, ◌≤◌, ◌<◌, ◌≡◌, ◌↔◌, ◌⊎◌, refl, true, false, none, some, List, [], ◌∷◌, ◌++◌, arith,
  Text, codes, All, length, replicate, map, ok, err, Gives, Returns, ◌==◌, decimal, digits_from,
}
use ci_infra_gardener.ImageBuilder.Options.{
  Options, validate, has_tagging_scheme, is_empty, IsValid, validate_iff,
}
use ci_infra_gardener.ImageBuilder.Pods.{
  BuilderPod, Sources, dashed, get_build_pod_name, define_destinations, validate_head_sha,
  version_destinations, version_of, with_version, date_destinations, date_sha_destination,
  clonerefs, clonerefs_env,
}
use ci_infra_gardener.ImageBuilder.Pods.Defining.{
  define_build_pods, find_env, clonerefs_container, define_clone_refs_pod, destinations_of,
  kaniko_container, define_pod_for_target, build_group_of, define_for_targets, define_for_variants,
}
use ci_infra_gardener.ImageBuilder.Pods.Names.{get_build_pod_name-length}
use ci_infra_gardener.ImageBuilder.Pods.Destinations.{IsOwn, define_destinations-IsOwn}
use ci_infra_gardener.ImageBuilder.Pods.Plans.{IsPlan, define_build_pods-IsPlan}
use ci_infra_gardener.ImageBuilder.Controller.{
  NamespacedName, same, Phase, pending, succeeded, find_phase, set_phase, Failure, getting_builder,
  State, Cluster, padded, stop, handle_error, which_pod_should_run, pod_number,
}
use ci_infra_gardener.ImageBuilder.Controller.Running.{
  log_path, collect_build_pod_logs, observe_pod, collect_pods, start_from, start_next_build_pods,
  start_or_stop, reconcile_build_pods, ensure_pvc, ensure_build_pod_definition, reconcile_builder,
  reconcile,
}
use ci_infra_gardener.ImageBuilder.Controller.Keeping.{terminations, is_known}
use ci_infra_gardener.ImageBuilder.Controller.Starting.{
  missing, WasCreated, start_next_build_pods-progress,
}
use ci_infra_gardener.ImageBuilder.Controller.Grouping.{
  next_group, Started, start_next_build_pods-Started,
}
use ci_infra_gardener.ImageBuilder.Controller.Invariants.{IsPlanned, IsSound}
use ci_infra_gardener.ImageBuilder.Controller.Reaching.{
  new_reconciler, Reach, start, served, failed, Reach-IsSound, Reach-terminated, Reach-complete,
  WasNoted,
}

abbrev some_options : Options
some_options = record {
  docker_config_secret = codes "s";
  org = codes "o";
  repo = codes "r";
  head_sha = codes "0123456789";
  context = [];
  dockerfile = codes "Dockerfile";
  targets = codes "a" ∷ codes "b" ∷ [];
  kaniko_args = codes "--verbosity=info" ∷ [];
  build_variant = [];
  registry = codes "reg";
  cache_registry = [];
  kaniko_image = codes "kaniko";
  add_version_tag = true;
  add_version_sha_tag = false;
  add_date_sha_tag = true;
  add_date_sha_tag_with_prefix = [];
  add_date_sha_tag_with_suffix = [];
  add_fixed_tags = codes "latest" ∷ [];
  inject_effective_version = true;
}

abbrev builder_name : NamespacedName
builder_name = record { namespace = codes "n"; name = codes "p" }

abbrev some_builder : BuilderPod (Unit {0})
some_builder = record {
  name = codes "p";
  namespace = codes "n";
  uid = codes "u";
  init_containers =
      record {
        name = clonerefs;
        image = codes "i";
        env = (clonerefs_env, codes "{}") ∷ [];
        args = [];
        mounts = [];
      }
      ∷ [];
  placement = tt;
}

-- The world is the list of pods with their phases.
abbrev Pods : Type 0
Pods = List (NamespacedName × Phase)

abbrev some_sources : Sources Pods Text (Unit {0})
some_sources = record {
  first_line = λ path w. (ok (codes "v1"), w);
  read_variants = λ path w. (ok [], w);
  set_controller_reference = λ builder pod. ok tt;
  sha256 = λ text. replicate 64 b'0';
  today = codes "20240102";
  path_join = λ a b. a ++ (codes "/" ++ b);
}

abbrev good_cluster : Cluster Pods Text (Unit {0}) (Unit {0})
good_cluster = record {
  get_pod = λ name w. (ok some_builder, w);
  get_pvc = λ name w. (ok tt, w);
  is_not_found = λ e. false;
  is_already_exists = λ e. false;
  set_pvc_reference = λ builder. ok tt;
  create_pvc = λ name w. (ok tt, w);
  list_pods = λ uid w. (ok w, w);
  create_pod =
      λ pod w. (ok pending, (record { namespace = pod.namespace; name = pod.name }, succeeded) ∷ w);
  stream_logs = λ name w. (ok tt, w);
  create_file = λ path w. (ok tt, w);
  copy_log = λ path log w. (ok tt, w);
}

abbrev bad_cluster : Cluster Pods Text (Unit {0}) (Unit {0})
bad_cluster = record good_cluster { get_pod = λ name w. (err (codes "down"), w) }

abbrev Builder : Type 0
Builder = State Pods Text (Unit {0})

abbrev new_builder : Builder
new_builder = new_reconciler []

-- The states after each of the requests of a build: the clone is started, then the two images, then the
-- build is done.
abbrev after_clone : Builder
after_clone =
    (reconcile good_cluster some_sources some_options builder_name builder_name new_builder).1

abbrev after_builds : Builder
after_builds =
    (reconcile good_cluster some_sources some_options builder_name builder_name after_clone).1

abbrev after_last : Builder
after_last =
    (reconcile good_cluster some_sources some_options builder_name builder_name after_builds).1

abbrev Reached : Cluster Pods Text (Unit {0}) (Unit {0}) → ℕ → Builder → Type 0
Reached cluster k s = Reach cluster some_sources some_options builder_name k s

Reached-last : Reached good_cluster 0 after_last
unfolding reconcile reconcile_builder handle_error stop reconcile_build_pods start_or_stop
    start_next_build_pods start_from collect_pods observe_pod collect_build_pod_logs log_path padded
    decimal digits_from pod_number same find_phase set_phase which_pod_should_run
    ensure_build_pod_definition ensure_pvc define_build_pods define_clone_refs_pod
    clonerefs_container find_env define_for_variants define_for_targets define_pod_for_target
    destinations_of kaniko_container get_build_pod_name build_group_of define_destinations
    with_version version_of version_destinations date_sha_destination date_destinations
    validate_head_sha ◌==◌ new_reconciler
Reached-last =
    served (served (served (start []) builder_name (some 30) refl) builder_name (some 30) refl)
      builder_name (some 30) refl

-- The build ends as a success, and the images are built after the clone.
build_lem :
    ((after_last.canceled ≡ true) × (after_last.error ≡ none))
    × ((map (λ entry. entry.0.name) after_builds.phases
          ≡ codes "p-r-clonerefs" ∷ codes "p-r-a" ∷ codes "p-r-b" ∷ [])
        × All (λ p. is_empty p.build_group ≡ false) after_clone.build_pods)
unfolding reconcile reconcile_builder handle_error stop reconcile_build_pods start_or_stop
    start_next_build_pods start_from collect_pods observe_pod collect_build_pod_logs log_path padded
    decimal digits_from pod_number same find_phase set_phase which_pod_should_run
    ensure_build_pod_definition ensure_pvc define_build_pods define_clone_refs_pod
    clonerefs_container find_env define_for_variants define_for_targets define_pod_for_target
    destinations_of kaniko_container get_build_pod_name build_group_of define_destinations
    with_version version_of version_destinations date_sha_destination date_destinations
    validate_head_sha ◌==◌ new_reconciler
build_lem = ((refl, refl), (refl, (refl, (refl, (refl, tt)))))

abbrev failing : Builder → Builder
failing s = (reconcile bad_cluster some_sources some_options builder_name builder_name s).1

abbrev after_failures : Builder
after_failures = failing (failing (failing (failing (failing (failing new_builder)))))

step_failed :
    {k : ℕ} {s : Builder} → Reached bad_cluster k s → Reached bad_cluster (suc k) (failing s)
unfolding reconcile reconcile_builder same ◌==◌
step_failed r = failed r builder_name (getting_builder (codes "down")) refl

Reached-failures : Reached bad_cluster 6 after_failures
Reached-failures =
    step_failed (step_failed (step_failed (step_failed (step_failed (step_failed (start []))))))

Reach-IsSound_example : IsSound some_sources some_options 6 after_failures
Reach-IsSound_example =
    Reach-IsSound bad_cluster some_sources some_options builder_name 6 after_failures
      Reached-failures

Reach-terminated_example :
    (after_failures.canceled ≡ true) × (terminations after_failures.calls ≡ 1)
Reach-terminated_example =
    Reach-terminated bad_cluster some_sources some_options builder_name 6 after_failures
      Reached-failures (omega arith)

Reach-complete_example :
    IsPlanned some_sources some_options after_last.build_pods
    × All (WasNoted good_cluster some_sources some_options after_last) after_last.build_pods
Reach-complete_example =
    Reach-complete good_cluster some_sources some_options builder_name 0 after_last Reached-last
      build_lem.0.0 build_lem.0.1

start_next_build_pods-progress_example :
    (((e : Failure Text) × ((start_next_build_pods good_cluster after_clone).0 ≡ err e))
      ⊎ ((((start_next_build_pods good_cluster after_clone).0 ≡ ok true)
            × (missing (start_next_build_pods good_cluster after_clone).1 after_clone.build_pods
                < missing after_clone after_clone.build_pods))
          ⊎ (((start_next_build_pods good_cluster after_clone).0 ≡ ok false)
              × (missing (start_next_build_pods good_cluster after_clone).1 after_clone.build_pods
                  ≡ 0))))
    × ((name : NamespacedName)
        → is_known (start_next_build_pods good_cluster after_clone).1 name ≡ true
        → (is_known after_clone name ≡ true) ⊎ WasCreated good_cluster after_clone.build_pods name)
start_next_build_pods-progress_example = start_next_build_pods-progress good_cluster after_clone

start_next_build_pods-Started_example :
    Started after_clone
      (next_group after_clone after_clone.build_pods)
      after_clone.build_pods
      (start_next_build_pods good_cluster after_clone).1
start_next_build_pods-Started_example =
    start_next_build_pods-Started good_cluster after_clone build_lem.1.1

validate_iff_example : (validate some_options ≡ none) ↔ IsValid some_options
validate_iff_example = validate_iff some_options

get_build_pod_name-length_example :
    (length (get_build_pod_name some_sources some_options (codes "p") (codes "a")) ≤ 65)
    × ((length (get_build_pod_name some_sources some_options (codes "p") (codes "a")) ≡ 65)
        ↔ (length (codes "p") + length (dashed some_options.repo (codes "a")) ≡ 64))
get_build_pod_name-length_example =
    get_build_pod_name-length some_sources some_options (codes "p") (codes "a") (λ text. refl)

define_destinations-IsOwn_example :
    Gives
      (All (IsOwn some_sources some_options (codes "a")))
      (define_destinations some_sources some_options (codes "a"))
define_destinations-IsOwn_example = define_destinations-IsOwn some_sources some_options (codes "a")

define_build_pods-IsPlan_example :
    Returns
      (IsPlan some_sources some_options some_builder [])
      (define_build_pods some_sources some_options (codes "p") some_builder []).0
define_build_pods-IsPlan_example =
    define_build_pods-IsPlan some_sources some_options (codes "p") some_builder []

-- The tags that some images get.
destinations_of_a :
    (define_destinations some_sources some_options (codes "a") []).0
    ≡ ok (
        codes "--destination=reg/a:v1"
        ∷ codes "--build-arg=EFFECTIVE_VERSION=v1-0123456789"
        ∷ codes "--destination=reg/a:v20240102-0123456"
        ∷ codes "--destination=reg/a:latest"
        ∷ [])
unfolding define_destinations with_version version_of version_destinations date_sha_destination
    date_destinations validate_head_sha
destinations_of_a = refl

-- A prefix for the tag with the date is not counted as a tagging scheme.
prefix_is_no_scheme :
    has_tagging_scheme (record some_options {
      add_version_tag = false;
      add_date_sha_tag = false;
      add_fixed_tags = [];
      add_date_sha_tag_with_prefix = codes "x" ∷ [];
    })
    ≡ false
unfolding has_tagging_scheme
prefix_is_no_scheme = refl

-- A name of 65 bytes, from names of 64 together.
long_name :
    length (get_build_pod_name some_sources some_options (replicate 61 b'p') (codes "a")) ≡ 65
unfolding get_build_pod_name
long_name = refl
