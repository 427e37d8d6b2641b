-- ===== src/ImageBuilder/Controller.antt =====
-- The state of the build controller, buildReconciler of prow/cmd/image-builder/buildcontroller.go, and its
-- operations on it. `W` is the cluster and the file system, `E` an error of a call to them; the calls that
-- start pods, save logs and terminate the process are recorded, the latest first, as are the pods that are
-- listed.
pub mod Running
pub mod Keeping
pub mod Starting
pub mod Grouping
pub mod Invariants
pub mod Ending
pub mod Reaching
use ci_infra_gardener.Prelude.{
  ℕ, ◌+◌, ◌-◌, suc, ◌≡◌, ◌↔◌, refl, arith, Bool, true, false, not, ◌&&◌, ◌||◌, Option, none, some,
  List, [], ◌∷◌, ◌++◌, Text, codes, decimal, ◌==◌, ==_iff, length, ltb, replicate, is_some, or_else,
  if◌then◌else◌, Exec, Result, ok, err, map_err,
}
use ci_infra_gardener.ImageBuilder.Pods.{Pod, BuilderPod, BuildPod, PodError}

pub record NamespacedName : Type 0 where
  pub namespace : Text
  pub name : Text

unfoldable pub same : NamespacedName → NamespacedName → Bool
same a b = a.namespace == b.namespace && a.name == b.name

pub same_iff : (a b : NamespacedName) → (same a b ≡ true) ↔ (a ≡ b)
unfolding same
same_iff a b = (
  λ h. ground (arith, ==_iff a.namespace b.namespace, ==_iff a.name b.name),
  λ h. ground (arith, ==_iff a.namespace b.namespace, ==_iff a.name b.name),
)

-- corev1.PodPhase; a pod that was just made has none yet.
pub data Phase : Type 0 where
  unset pending running succeeded failed unknown : Phase

abbrev pub is_active : Phase → Bool
is_active pending = true
is_active running = true
is_active _ = false

abbrev pub is_failed : Phase → Bool
is_failed failed = true
is_failed _ = false

abbrev pub is_final : Phase → Bool
is_final succeeded = true
is_final failed = true
is_final _ = false

abbrev pub phase_eq : Phase → Phase → Bool
phase_eq unset unset = true
phase_eq pending pending = true
phase_eq running running = true
phase_eq succeeded succeeded = true
phase_eq failed failed = true
phase_eq unknown unknown = true
phase_eq _ _ = false

abbrev pub Phases : Type 0
Phases = List (NamespacedName × Phase)

unfoldable pub find_phase : NamespacedName → Phases → Option Phase
find_phase name [] = none
find_phase name ((n, phase) ∷ phases) =
    let rest = find_phase name phases in if same n name then some phase else rest

unfoldable pub set_phase : NamespacedName → Phase → Phases → Phases
set_phase name phase [] = (name, phase) ∷ []
set_phase name phase ((n, p) ∷ phases) =
    let rest = set_phase name phase phases in
    if same n name then (name, phase) ∷ phases else (n, p) ∷ rest

pub find_phase-set_phase :
    (name other : NamespacedName) (phase : Phase) (phases : Phases)
    → find_phase other (set_phase name phase phases)
      ≡ (if same name other then some phase else find_phase other phases)
unfolding find_phase set_phase
find_phase-set_phase name other phase [] = refl
find_phase-set_phase name other phase ((n, p) ∷ phases) = ground (
  arith,
  same_iff n name,
  same_iff n other,
  same_iff name other,
  find_phase-set_phase name other phase phases,
)

pub data Call (P : Type 0) : Type 0 where
  start_pod : BuildPod P → Call P
  save_log : (path : Text) → Call P
  saw_pod : NamespacedName → Call P
  terminate : Call P

pub data Failure (E : Type 0) : Type 0 where
  getting_builder getting_pvc creating_pvc listing_pods log_stream log_file writing_log :
      E → Failure E
  creating_pod : E → Failure E
  defining_pods : PodError E → Failure E
  pods_not_found : List NamespacedName → Failure E
  pods_failed : Failure E

pub record State (W E P : Type 0) : Type 0 where
  pub world : W
  pub calls : List (Call P)
  pub canceled : Bool
  pub build_pods : List (BuildPod P)
  pub phases : Phases
  pub error : Option (Failure E)
  pub error_count : ℕ

-- What Kubernetes and the file system answer. `create_pod` gives the phase of the pod as created.
pub record Cluster (W E P Log : Type 0) : Type 0 where
  pub get_pod : NamespacedName → Exec W E (BuilderPod P)
  pub get_pvc : NamespacedName → Exec W E (Unit {0})
  pub is_not_found : E → Bool
  pub is_already_exists : E → Bool
  pub set_pvc_reference : BuilderPod P → Result E (Unit {0})
  pub create_pvc : NamespacedName → Exec W E (Unit {0})
  pub list_pods : (uid : Text) → Exec W E (List (NamespacedName × Phase))
  pub create_pod : Pod P → Exec W E Phase
  pub stream_logs : NamespacedName → Exec W E Log
  pub create_file : (path : Text) → Exec W E (Unit {0})
  pub copy_log : (path : Text) → Log → Exec W E (Unit {0})

abbrev pub name_of : {P : Type 0} → BuildPod P → NamespacedName
name_of p = record { namespace = p.pod.namespace; name = p.pod.name }

abbrev pub max_errors : ℕ
max_errors = 5

-- `%03d`
unfoldable pub padded : ℕ → Text
padded n = replicate (3 - length (decimal n)) b'0' ++ decimal n

-- The pods that were seen pending or running last.
unfoldable pub which_pod_should_run : Phases → List NamespacedName
which_pod_should_run [] = []
which_pod_should_run ((name, phase) ∷ phases) =
    let rest = which_pod_should_run phases in if is_active phase then name ∷ rest else rest

-- The position of the last pod with the name, or 0.
unfoldable pub pod_number :
    {P : Type 0} → NamespacedName → (position found : ℕ) → List (BuildPod P) → ℕ
pod_number name i found [] = found
pod_number name i found (p ∷ ps) =
    pod_number name (suc i) (if same (name_of p) name then i else found) ps

module _ {W E P : Type 0} where
  abbrev pub call : {F A : Type 0} → (F → Failure E) → Exec W F A → Exec (State W E P) (Failure E) A
  call wrap m s = let (r, w) = m s.world in (map_err wrap r, record s { world = w })

  abbrev pub log_call : Call P → Exec (State W E P) (Failure E) (Unit {0})
  log_call c s = (ok tt, record s { calls = c ∷ s.calls })

  unfoldable pub stop : Option (Failure E) → State W E P → State W E P
  stop e s = if s.canceled then s else record s {
    error = elim e [ none ↦ s.error | some f ↦ some f ];
    calls = terminate ∷ s.calls;
    canceled = true;
  }

  -- The deferred errorHandler of Reconcile.
  unfoldable pub handle_error : Failure E → State W E P → State W E P
  unfolding stop
  handle_error e s =
      let counted = record s { error_count = s.error_count + 1 } in
      if ltb max_errors counted.error_count then stop (some e) counted else counted
