-- ===== src/ImageBuilder/Controller/Ending.antt =====
-- How the parts of Reconcile in prow/cmd/image-builder/buildcontroller.go end, one after the other.
use ci_infra_gardener.Prelude.{
  ℕ, ◌≡◌, refl, ap, ◌∙◌, inl, inr, Bool, true, false, not, none, some, List, [], ◌∷◌, arith, eqb,
  if◌then◌else◌, Bool-cases, Result-cases, Exec, Result, ok, err, continue, ◌>>=◌, ok_of_Returns,
}
use ci_infra_gardener.ImageBuilder.Options.{Options, is_empty}
use ci_infra_gardener.ImageBuilder.Pods.{BuildPod, BuilderPod, Sources}
use ci_infra_gardener.ImageBuilder.Pods.Defining.{define_build_pods}
use ci_infra_gardener.ImageBuilder.Pods.Plans.{IsPlan, define_build_pods-IsPlan}
use ci_infra_gardener.ImageBuilder.Controller.{
  NamespacedName, Failure, getting_builder, listing_pods, defining_pods, pods_failed, State,
  Cluster, call, stop, which_pod_should_run,
}
use ci_infra_gardener.ImageBuilder.Controller.Running.{
  collect_pods, start_next_build_pods, start_or_stop, reconcile_build_pods, ensure_pvc,
  keep_build_pods, ensure_build_pod_definition, reconcile_builder,
}
use ci_infra_gardener.ImageBuilder.Controller.Keeping.{IsLater, IsLater-moved, collect_pods-IsLater}
use ci_infra_gardener.ImageBuilder.Controller.Starting.{
  missing, start_next_build_pods-IsLater, start_next_build_pods-progress,
}
use ci_infra_gardener.ImageBuilder.Controller.Invariants.{
  IsPlanned, IsSound, IsSound-IsLater, IsSound-stop,
}

module _ {W E P Log : Type 0} (cluster : Cluster W E P Log) (sources : Sources W E P)
    (options : Options) where
  -- A run ends in a sound state, and `Q` holds of it if there is no error.
  abbrev pub Ends :
      {A : Type 0}
      → (k : ℕ) → (A → State W E P → Type 0)
      → Result (Failure E) A × State W E P
      → Type 0
  Ends k Q (ok a, t) = IsSound sources options k t × Q a t
  Ends k Q (err e, t) = IsSound sources options k t

  Ends-bind :
      {A B : Type 0} (k : ℕ) (Q : A → State W E P → Type 0) (R : B → State W E P → Type 0)
      (x : Result (Failure E) A × State W E P) (f : A → Exec (State W E P) (Failure E) B)
      → Ends k Q x
      → ((a : A) (t : State W E P) → IsSound sources options k t → Q a t → Ends k R (f a t))
      → Ends k R (continue x.0 f x.1)
  Ends-bind k Q R (ok a, t) f h g = g a t h.0 h.1
  Ends-bind k Q R (err e, t) f h g = h

  -- Nothing is said of the result.
  abbrev pub Ended : {A : Type 0} → A → State W E P → Type 0
  Ended a t = Unit

  abbrev HasPods : Bool → State W E P → Type 0
  HasPods b s = is_empty s.build_pods ≡ not b

  Ends-IsLater :
      {A : Type 0} (k : ℕ) (b : Bool) (s : State W E P) (x : Result (Failure E) A × State W E P)
      → IsSound sources options k s
      → HasPods b s
      → IsLater s x.1
      → Ends k (λ a t. HasPods b t) x
  Ends-IsLater k b s (ok a, t) i n h =
      (IsSound-IsLater sources options k s t h i, ap is_empty h.build_pods ∙ n)
  Ends-IsLater k b s (err e, t) i n h = IsSound-IsLater sources options k s t h i

  Ends-Ended :
      {A : Type 0} (k : ℕ) (s : State W E P) (x : Result (Failure E) A × State W E P)
      → IsSound sources options k s
      → IsLater s x.1
      → Ends k Ended x
  Ends-Ended k s (ok a, t) i h = (IsSound-IsLater sources options k s t h i, tt)
  Ends-Ended k s (err e, t) i h = IsSound-IsLater sources options k s t h i

  start_or_stop-Ends :
      (k : ℕ) (s : State W E P)
      → HasPods true s
      → IsSound sources options k s
      → Ends k Ended (start_or_stop cluster s)
  unfolding start_or_stop
  start_or_stop-Ends k s full i =
      let t = (start_next_build_pods cluster s).1 in
      let later = start_next_build_pods-IsLater cluster s in
      let sound = IsSound-IsLater sources options k s t later i in
      elim (Bool-cases (not (is_empty (which_pod_should_run s.phases)))) [
        | inl some_active ↦ rw some_active i
        | inr none_active ↦ elim (start_next_build_pods-progress cluster s).0 [
          | inl (e, bad) ↦ rw (none_active, bad) sound
          | inr (inl (started, less)) ↦ rw (none_active, started) (sound, tt)
          | inr (inr (none_started, all)) ↦
              rw (none_active, none_started)
                (
                  IsSound-stop sources options k none t
                      (inr (
                        ap is_empty later.build_pods ∙ full,
                        ap (missing t) later.build_pods ∙ all,
                      ))
                      sound.0,
                  tt,
                )
        ]
      ]

  -- What happens once the listed pods have been counted.
  counted-Ends :
      (k : ℕ) (counts : ℕ × ℕ) (s : State W E P)
      → IsSound sources options k s
      → HasPods true s
      → Ends k Ended (
          if not (eqb counts.0 0)
          then (ok tt, s)
          else if not (eqb counts.1 0)
          then (ok tt, stop (some pods_failed) s)
          else start_or_stop cluster s)
  counted-Ends k counts s i full = elim (Bool-cases (not (eqb counts.0 0))) [
    | inl b ↦ rw b (i, tt)
    | inr b ↦ elim (Bool-cases (not (eqb counts.1 0))) [
      | inl c ↦
          rw (b, c)
            (
              IsSound-stop sources options k (some pods_failed) s (inl λ n. ground (arith, n)) i.0,
              tt,
            )
      | inr c ↦ rw (b, c) (start_or_stop-Ends k s full i)
    ]
  ]

  reconcile_build_pods-Ends :
      (k : ℕ) (ib_pod : BuilderPod P) (s : State W E P)
      → IsSound sources options k s
      → HasPods true s
      → Ends k Ended (reconcile_build_pods cluster ib_pod s)
  unfolding reconcile_build_pods
  reconcile_build_pods-Ends k ib_pod s i full =
      let listed = call listing_pods (cluster.list_pods ib_pod.uid) s in
      Ends-bind k (λ pods t. HasPods true t) Ended listed _
        (Ends-IsLater k true s listed i full (IsLater-moved _ s))
        λ pods t j full'.
          Ends-bind k (λ counts u. HasPods true u) Ended (collect_pods cluster pods t) _
            (Ends-IsLater k true t (collect_pods cluster pods t) j full'
              (collect_pods-IsLater cluster pods t))
            λ counts u l full''. counted-Ends k counts u l full''

  ensure_pvc-IsLater :
      (ib_pod : BuilderPod P) (s : State W E P) → IsLater s (ensure_pvc cluster ib_pod s).1
  unfolding ensure_pvc
  ensure_pvc-IsLater ib_pod s =
      let (found, w) =
        cluster.get_pvc (record { namespace = ib_pod.namespace; name = ib_pod.namespace })
          s.world in
      elim (Result-cases found) [
        | inl (_, good) ↦ rw (ensure_pvc, good) (IsLater-moved w s)
        | inr (e, bad) ↦ elim (Bool-cases (cluster.is_not_found e)) [
          | inl b ↦ rw (ensure_pvc, bad, b) (IsLater-moved _ s)
          | inr b ↦ rw (ensure_pvc, bad, b) (IsLater-moved w s)
        ]
      ]

  IsPlan-HasPods :
      (ib_pod : BuilderPod P) (w : W) (pods : List (BuildPod P))
      → IsPlan sources options ib_pod w pods
      → is_empty pods ≡ false
  IsPlan-HasPods ib_pod w [] h = absurd h
  IsPlan-HasPods ib_pod w (p ∷ pods) h = refl

  -- The pods are defined at most once, in a state that was not completed.
  keep_build_pods-IsSound :
      (k : ℕ) (pods : List (BuildPod P)) (s : State W E P)
      → IsSound sources options k s
      → HasPods false s
      → IsPlanned sources options pods
      → IsSound sources options k (record s { build_pods = pods })
  keep_build_pods-IsSound k pods s (i, bounded) none_yet plan = (
    record {
      counted = i.counted;
      terminated = i.terminated;
      running = i.running;
      complete = elim i.complete [
        | inl running ↦ inl running
        | inr (inl failed) ↦ inr (inl failed)
        | inr (inr all) ↦ absurd (ground (arith, all.0, none_yet))
      ];
      planned = inr plan;
      noted = i.noted;
    },
    bounded,
  )

  defined-Ends :
      (k : ℕ) (builder : NamespacedName) (ib_pod : BuilderPod P) (s : State W E P)
      → IsSound sources options k s
      → HasPods false s
      → Ends k
          (λ a t. HasPods true t)
          ((call defining_pods (define_build_pods sources options builder.name ib_pod)
              >>= keep_build_pods cluster)
            s)
  defined-Ends k builder ib_pod s i none_yet =
      let (defined, w) = define_build_pods sources options builder.name ib_pod s.world in
      let plan = define_build_pods-IsPlan sources options builder.name ib_pod s.world in
      let moved =
        IsSound-IsLater sources options k s (record s { world = w }) (IsLater-moved w s) i in
      elim (Result-cases defined) [
        | inl (pods, good) ↦
            let planned = ok_of_Returns plan good in
            rw good (
              keep_build_pods-IsSound k pods (record s { world = w }) moved none_yet
                  (ib_pod, s.world, planned),
              IsPlan-HasPods ib_pod s.world pods planned,
            )
        | inr (e, bad) ↦ rw bad moved
      ]

  ensure-Ends :
      (k : ℕ) (builder : NamespacedName) (ib_pod : BuilderPod P) (s : State W E P)
      → IsSound sources options k s
      → Ends k
          (λ a t. HasPods true t)
          (ensure_build_pod_definition cluster sources options builder ib_pod s)
  unfolding ensure_build_pod_definition
  ensure-Ends k builder ib_pod s i = elim (Bool-cases (not (is_empty s.build_pods))) [
    | inl full ↦ rw full (i, ground (arith, full))
    | inr empty ↦ rw empty (
        Ends-bind k (λ a t. HasPods false t) (λ a t. HasPods true t) (ensure_pvc cluster ib_pod s) _
          (Ends-IsLater k false s (ensure_pvc cluster ib_pod s) i (ground (arith, empty))
            (ensure_pvc-IsLater ib_pod s))
          λ _ t j none_yet. defined-Ends k builder ib_pod t j none_yet)
  ]

  pub reconcile_builder-Ends :
      (k : ℕ) (builder : NamespacedName) (s : State W E P)
      → IsSound sources options k s
      → Ends k Ended (reconcile_builder cluster sources options builder s)
  unfolding reconcile_builder
  reconcile_builder-Ends k builder s i =
      let got = call getting_builder (cluster.get_pod builder) s in
      Ends-bind k (λ a t. Unit) Ended got _ (Ends-Ended k s got i (IsLater-moved _ s))
        λ ib_pod t j _.
          Ends-bind k (λ a u. HasPods true u) Ended
            (ensure_build_pod_definition cluster sources options builder ib_pod t) _
            (ensure-Ends k builder ib_pod t j)
            λ _ u l full. reconcile_build_pods-Ends k ib_pod u l full
