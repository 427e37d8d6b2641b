-- ===== src/ImageBuilder/Controller/Running.antt =====
-- The methods of buildReconciler in prow/cmd/image-builder/buildcontroller.go that talk to the cluster.
use ci_infra_gardener.Prelude.{
  ℕ, ◌+◌, Bool, true, false, not, ◌&&◌, Option, none, some, List, [], ◌∷◌, ◌++◌, Text, codes, ◌==◌,
  eqb, is_some, or_else, if◌then◌else◌, Exec, Result, ok, err, pure, lift, ◌>>=◌, ◌>>◌,
}
use ci_infra_gardener.ImageBuilder.Options.{Options, is_empty}
use ci_infra_gardener.ImageBuilder.Pods.{BuilderPod, BuildPod, Sources}
use ci_infra_gardener.ImageBuilder.Pods.Defining.{define_build_pods}
use ci_infra_gardener.ImageBuilder.Controller.{
  NamespacedName, same, Phase, unset, is_active, is_failed, is_final, phase_eq, find_phase,
  set_phase, start_pod, save_log, saw_pod, Failure, getting_builder, getting_pvc, creating_pvc,
  listing_pods, log_stream, log_file, writing_log, creating_pod, defining_pods, pods_not_found,
  pods_failed, State, Cluster, name_of, padded, call, log_call, stop, handle_error,
  which_pod_should_run, pod_number,
}

module _ {W E P Log : Type 0} (cluster : Cluster W E P Log) where
  abbrev pub Action : Type 0 → Type 0
  Action A = Exec (State W E P) (Failure E) A

  unfoldable pub log_path : NamespacedName → List (BuildPod P) → Text
  log_path name pods =
      codes "/logs/artifacts/"
      ++ (padded (pod_number name 0 0 pods) ++ (codes "-" ++ (name.name ++ codes "-build-log.txt")))

  unfoldable pub collect_build_pod_logs : NamespacedName → Action (Unit {0})
  collect_build_pod_logs name s =
      let path = log_path name s.build_pods in
      (do
        log ← call log_stream (cluster.stream_logs name)
        call log_file (cluster.create_file path)
        call writing_log (cluster.copy_log path log)
        log_call (save_log path))
        s

  abbrev pub record_phase : NamespacedName → Phase → Action (Unit {0})
  record_phase name phase s = (ok tt, record s { phases = set_phase name phase s.phases })

  -- A pod that is listed: its logs are collected when it has just ended.
  unfoldable pub observe_pod : NamespacedName → Phase → Action (Unit {0})
  unfolding collect_build_pod_logs
  observe_pod name phase s =
      if phase_eq (or_else (find_phase name s.phases) unset) phase
      then (ok tt, s)
      else (do
        if is_final phase then collect_build_pod_logs name else pure tt
        record_phase name phase)
          s

  abbrev pub requeue_seconds : ℕ
  requeue_seconds = 30

  abbrev pub one_if : Bool → ℕ
  one_if true = 1
  one_if false = 0

  -- The loop over the listed pods, with the numbers of running and of failed ones.
  unfoldable pub collect_pods : List (NamespacedName × Phase) → Action (ℕ × ℕ)
  unfolding observe_pod
  collect_pods [] = pure (0, 0)
  collect_pods ((name, phase) ∷ pods) = do
    log_call (saw_pod name)
    observe_pod name phase
    (running, failed) ← collect_pods pods
    pure (one_if (is_active phase) + running, one_if (is_failed phase) + failed)

  abbrev pub create_build_pod : BuildPod P → Action (Unit {0})
  create_build_pod p = do
    phase ← call creating_pod (cluster.create_pod p.pod)
    log_call (start_pod p)
    record_phase (name_of p) phase

  -- The loop over the build pods, from a group, empty at first, and whether a pod was created.
  unfoldable pub start_from : (group : Text) → (created : Bool) → List (BuildPod P) → Action Bool
  start_from group created [] s = (ok created, s)
  start_from group created (p ∷ pods) s =
      if is_some (find_phase (name_of p) s.phases)
      then start_from group created pods s
      else if not (is_empty group) && not (group == p.build_group)
      then (ok created, s)
      else (do create_build_pod p; start_from p.build_group true pods) s

  unfoldable pub start_next_build_pods : Action Bool
  unfolding start_from
  start_next_build_pods s = start_from [] false s.build_pods s

  -- When no pod is running and none has failed.
  unfoldable pub start_or_stop : Action (Unit {0})
  start_or_stop s =
      let expected = which_pod_should_run s.phases in
      if not (is_empty expected)
      then (err (pods_not_found expected), s)
      else (do started ← start_next_build_pods; λ t. (ok tt, if started then t else stop none t)) s

  unfoldable pub reconcile_build_pods : BuilderPod P → Action (Unit {0})
  unfolding start_or_stop
  reconcile_build_pods ib_pod = do
    pods ← call listing_pods (cluster.list_pods ib_pod.uid)
    (running, failed) ← collect_pods pods
    λ s.
        if not (eqb running 0)
        then (ok tt, s)
        else if not (eqb failed 0)
        then (ok tt, stop (some pods_failed) s)
        else start_or_stop s

  -- The PVC that is created has the name of the image-builder pod.
  unfoldable pub create_pvc : BuilderPod P → Exec W E (Unit {0})
  create_pvc ib_pod = do
    lift (cluster.set_pvc_reference ib_pod)
    cluster.create_pvc (record { namespace = ib_pod.namespace; name = ib_pod.name })

  -- A call whose error is accepted if it is such.
  abbrev pub accept : (E → Bool) → Exec W E (Unit {0}) → Exec W E (Unit {0})
  accept p m w =
      let (r, w') = m w in (elim r [ ok _ ↦ ok tt | err e ↦ if p e then ok tt else err e ], w')

  -- The first part of ensureBuildPodDefinition. The PVC that is looked for has the name of its namespace.
  unfoldable pub ensure_pvc : BuilderPod P → Action (Unit {0})
  unfolding create_pvc
  ensure_pvc ib_pod s =
      let (found, w) =
        cluster.get_pvc (record { namespace = ib_pod.namespace; name = ib_pod.namespace })
          s.world in
      let t = record s { world = w } in
      elim found [
        | ok _ ↦ (ok tt, t)
        | err e ↦
            if cluster.is_not_found e
            then call creating_pvc (accept cluster.is_already_exists (create_pvc ib_pod)) t
            else (err (getting_pvc e), t)
      ]

  -- On an error there are no build pods.
  abbrev pub keep_build_pods : List (BuildPod P) → Action (Unit {0})
  keep_build_pods pods s = (ok tt, record s { build_pods = pods })

  module _ (sources : Sources W E P) (options : Options) where
    unfoldable pub ensure_build_pod_definition :
        (builder : NamespacedName) → BuilderPod P → Action (Unit {0})
    unfolding ensure_pvc
    ensure_build_pod_definition builder ib_pod s =
        if not (is_empty s.build_pods)
        then (ok tt, s)
        else (do
          ensure_pvc ib_pod
          pods ← call defining_pods (define_build_pods sources options builder.name ib_pod)
          keep_build_pods pods)
            s

    unfoldable pub reconcile_builder : (builder : NamespacedName) → Action (Unit {0})
    unfolding reconcile_build_pods ensure_build_pod_definition
    reconcile_builder builder = do
      ib_pod ← call getting_builder (cluster.get_pod builder)
      ensure_build_pod_definition builder ib_pod
      reconcile_build_pods ib_pod

    -- Reconcile: requests for other pods are skipped; an error is counted.
    unfoldable pub reconcile :
        (builder request : NamespacedName)
        → State W E P
        → Result (Failure E) (Option ℕ) × State W E P
    unfolding reconcile_builder handle_error
    reconcile builder request s =
        if not (same request builder)
        then (ok none, s)
        else let (r, t) = reconcile_builder builder s in
          elim r [ ok _ ↦ (ok (some requeue_seconds), t) | err e ↦ (err e, handle_error e t) ]
