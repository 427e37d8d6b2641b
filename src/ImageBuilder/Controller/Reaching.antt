-- ===== src/ImageBuilder/Controller/Reaching.antt =====
-- The requests that the build controller of prow/cmd/image-builder/buildcontroller.go serves one after the
-- other, while the cluster changes in between in any way.
use ci_infra_gardener.Prelude.{
  ℕ, suc, ◌<◌, ◌≡◌, refl, subst, inl, inr, true, false, not, Option, none, some, List, [], ◌∷◌, All,
  arith, Bool-cases, Result, ok, err,
}
use ci_infra_gardener.ImageBuilder.Options.{Options}
use ci_infra_gardener.ImageBuilder.Pods.{BuildPod, Sources}
use ci_infra_gardener.ImageBuilder.Controller.{
  NamespacedName, same, Failure, State, Cluster, handle_error, name_of, find_phase,
}
use ci_infra_gardener.ImageBuilder.Controller.Running.{reconcile}
use ci_infra_gardener.ImageBuilder.Controller.Keeping.{
  is_known, terminations, IsNoted, IsLater-moved,
}
use ci_infra_gardener.ImageBuilder.Controller.Invariants.{
  IsPlanned, IsSound, IsSound-IsLater, IsSound-handle_error,
}
use ci_infra_gardener.ImageBuilder.Controller.Starting.{missing}
use ci_infra_gardener.ImageBuilder.Controller.Ending.{Ends, Ended, reconcile_builder-Ends}

unfoldable pub new_reconciler : {W E P : Type 0} → W → State W E P
new_reconciler w = record {
  world = w;
  calls = [];
  canceled = false;
  build_pods = [];
  phases = [];
  error = none;
  error_count = 0;
}

-- The state after requests of which so many have failed.
pub data Reach {W E P Log : Type 0} (cluster : Cluster W E P Log) (sources : Sources W E P)
    (options : Options) (builder : NamespacedName) : ℕ → State W E P → Type 0 where
  start : (w : W) → Reach cluster sources options builder 0 (new_reconciler w)
  moved :
      {k : ℕ} {s : State W E P}
      → Reach cluster sources options builder k s
      → (w : W) → Reach cluster sources options builder k (record s { world = w })
  served :
      {k : ℕ} {s : State W E P}
      → Reach cluster sources options builder k s
      → (request : NamespacedName) (requeue : Option ℕ)
      → (reconcile cluster sources options builder request s).0 ≡ ok requeue
      → Reach cluster sources options builder k
          (reconcile cluster sources options builder request s).1
  failed :
      {k : ℕ} {s : State W E P}
      → Reach cluster sources options builder k s
      → (request : NamespacedName) (e : Failure E)
      → (reconcile cluster sources options builder request s).0 ≡ err e
      → Reach cluster sources options builder
          (suc k)
          (reconcile cluster sources options builder request s).1

module _ {W E P Log : Type 0} (cluster : Cluster W E P Log) (sources : Sources W E P)
    (options : Options) where
  -- The state after a request, by its result.
  abbrev After : (k : ℕ) → Result (Failure E) (Option ℕ) → State W E P → Type 0
  After k (ok requeue) t = IsSound sources options k t
  After k (err e) t = IsSound sources options (suc k) t

  reconcile-After :
      (k : ℕ) (builder request : NamespacedName) (s : State W E P)
      → IsSound sources options k s
      → After k
          (reconcile cluster sources options builder request s).0
          (reconcile cluster sources options builder request s).1
  unfolding reconcile
  reconcile-After k builder request s i = elim (Bool-cases (not (same request builder))) [
    | inl other ↦ rw other i
    | inr own ↦ rw own (handled _ (reconcile_builder-Ends cluster sources options k builder s i))
  ]
    where
      handled :
          (x : Result (Failure E) (Unit {0}) × State W E P)
          → Ends cluster sources options k (Ended cluster sources options) x
          → After k
              (elim x.0 as (λ r. Result (Failure E) (Option ℕ) × State W E P) [
                | ok _ ↦ (ok (some 30), x.1)
                | err e ↦ (err e, handle_error e x.1)
              ]).0
              (elim x.0 as (λ r. Result (Failure E) (Option ℕ) × State W E P) [
                | ok _ ↦ (ok (some 30), x.1)
                | err e ↦ (err e, handle_error e x.1)
              ]).1
      handled (ok _, t) h = h.0
      handled (err e, t) h = IsSound-handle_error sources options k e t h

  -- Whatever requests are served: the failed ones are counted, the build is canceled after more than five of
  -- them, the process is terminated once exactly if it is canceled, and an error is kept only then. The build
  -- pods are none or a plan. For each pod whose phase is known the calls hold its start, which is recorded once
  -- Create has returned no error, or a listing of it by the cluster, and of a build that is canceled without an error all pods are known, and there
  -- are some.
  pub Reach-IsSound :
      (builder : NamespacedName) (k : ℕ) (s : State W E P)
      → Reach cluster sources options builder k s
      → IsSound sources options k s
  unfolding new_reconciler find_phase
  Reach-IsSound builder k s (start w) = (
    record {
      counted = refl;
      terminated = refl;
      running = inl refl;
      complete = inl refl;
      planned = inl refl;
      noted = λ name k. absurd (ground (arith, k));
    },
    inl (omega arith),
  )
  Reach-IsSound builder k _ (moved {s = s} r w) =
      IsSound-IsLater sources options k s _ (IsLater-moved w s) (Reach-IsSound builder k s r)
  Reach-IsSound builder k _ (served {s = s} r request requeue e) =
      subst (λ x. After k x (reconcile cluster sources options builder request s).1) e
        (reconcile-After k builder request s (Reach-IsSound builder k s r))
  Reach-IsSound builder _ _ (failed {k = k} {s = s} r request f e) =
      subst (λ x. After k x (reconcile cluster sources options builder request s).1) e
        (reconcile-After k builder request s (Reach-IsSound builder k s r))

  -- After more than five failed requests the build is canceled and the process was told to terminate, once.
  pub Reach-terminated :
      (builder : NamespacedName) (k : ℕ) (s : State W E P)
      → Reach cluster sources options builder k s
      → 5 < k
      → (s.canceled ≡ true) × (terminations s.calls ≡ 1)
  Reach-terminated builder k s r many =
      let (i, bounded) = Reach-IsSound builder k s r in
      elim bounded [
        | inl few ↦ absurd (omega (arith, few, many))
        | inr c ↦ (c, ground (arith, i.terminated, c))
      ]

  abbrev pub WasNoted : State W E P → BuildPod P → Type 0
  WasNoted s p = IsNoted (name_of p) s.calls

  missing-WasNoted :
      (s : State W E P) (pods : List (BuildPod P))
      → ((name : NamespacedName) → is_known s name ≡ true → IsNoted name s.calls)
      → missing s pods ≡ 0
      → All (WasNoted s) pods
  missing-WasNoted s [] h e = tt
  missing-WasNoted s (p ∷ pods) h e = elim (Bool-cases (is_known s (name_of p))) [
    | inl k ↦ (h (name_of p) k, missing-WasNoted s pods h (ground (arith, e, k)))
    | inr n ↦ absurd (ground (arith, e, n))
  ]

  -- A build that was canceled without an error is a success: its pods are a plan, and for each of them the calls
  -- hold its start, which is recorded once Create has returned no error, or a listing of it by the cluster.
  pub Reach-complete :
      (builder : NamespacedName) (k : ℕ) (s : State W E P)
      → Reach cluster sources options builder k s
      → s.canceled ≡ true
      → s.error ≡ none
      → IsPlanned sources options s.build_pods × All (WasNoted s) s.build_pods
  Reach-complete builder k s r c e =
      let i = (Reach-IsSound builder k s r).0 in
      elim i.complete [
        | inl running ↦ absurd (ground (arith, running, c))
        | inr (inl failure) ↦ absurd (failure e)
        | inr (inr all) ↦ elim i.planned [
          | inl nothing ↦ absurd (ground (arith, nothing, all.0))
          | inr plan ↦ (plan, missing-WasNoted s s.build_pods i.noted all.1)
        ]
      ]
