-- ===== src/ImageBuilder/Controller/Keeping.antt =====
-- What the methods of buildReconciler in prow/cmd/image-builder/buildcontroller.go leave as it is while they
-- neither define the build pods nor stop.
use ci_infra_gardener.Prelude.{
  ℕ, ◌+◌, ◌≡◌, refl, subst, inl, inr, ◌⊎◌, ◌∙◌, Bool-cases, Bool, true, false, List, [], ◌∷◌, arith,
  is_some, or_else, if◌then◌else◌, Exec, Result, ok, err, pure, continue, ◌>>=◌,
}
use ci_infra_gardener.ImageBuilder.Pods.{BuildPod}
use ci_infra_gardener.ImageBuilder.Controller.{
  NamespacedName, Phase, unset, is_final, phase_eq, find_phase, find_phase-set_phase, same,
  same_iff, saw_pod, Call, start_pod, save_log, terminate, Failure, State, Cluster, name_of, call,
  log_call, log_stream, log_file, writing_log, creating_pod,
}
use ci_infra_gardener.ImageBuilder.Controller.Running.{
  log_path, collect_build_pod_logs, record_phase, observe_pod, collect_pods, create_build_pod,
}

abbrev pub terminations : {P : Type 0} → List (Call P) → ℕ
terminations [] = 0
terminations (terminate ∷ calls) = 1 + terminations calls
terminations (start_pod p ∷ calls) = terminations calls
terminations (save_log path ∷ calls) = terminations calls
terminations (saw_pod name ∷ calls) = terminations calls

-- A pod of the name was started, which is recorded once its creation has succeeded, or was listed.
abbrev pub IsNoted : {P : Type 0} → NamespacedName → List (Call P) → Type 0
IsNoted name [] = ⊥
IsNoted name (start_pod p ∷ calls) = (name_of p ≡ name) ⊎ IsNoted name calls
IsNoted name (saw_pod n ∷ calls) = (n ≡ name) ⊎ IsNoted name calls
IsNoted name (save_log path ∷ calls) = IsNoted name calls
IsNoted name (terminate ∷ calls) = IsNoted name calls

abbrev pub is_known : {W E P : Type 0} → State W E P → NamespacedName → Bool
is_known s name = is_some (find_phase name s.phases)

-- A later state of a run that goes on.
pub record IsLater {W E P : Type 0} (s t : State W E P) : Type 0 where
  pub canceled : t.canceled ≡ s.canceled
  pub error : t.error ≡ s.error
  pub error_count : t.error_count ≡ s.error_count
  pub build_pods : t.build_pods ≡ s.build_pods
  pub terminations : terminations t.calls ≡ terminations s.calls
  pub known : (name : NamespacedName) → is_known s name ≡ true → is_known t name ≡ true
  pub kept : (name : NamespacedName) → IsNoted name s.calls → IsNoted name t.calls
  pub noted :
      (name : NamespacedName)
      → is_known t name ≡ true
      → (is_known s name ≡ true) ⊎ IsNoted name t.calls

module _ {W E P : Type 0} where
  pub IsLater-refl : (s : State W E P) → IsLater s s
  IsLater-refl s = record {
    canceled = refl;
    error = refl;
    error_count = refl;
    build_pods = refl;
    terminations = refl;
    known = λ name k. k;
    kept = λ name n. n;
    noted = λ name k. inl k;
  }

  pub IsLater-trans : {s t u : State W E P} → IsLater s t → IsLater t u → IsLater s u
  IsLater-trans h k = record {
    canceled = k.canceled ∙ h.canceled;
    error = k.error ∙ h.error;
    error_count = k.error_count ∙ h.error_count;
    build_pods = k.build_pods ∙ h.build_pods;
    terminations = k.terminations ∙ h.terminations;
    known = λ name e. k.known name (h.known name e);
    kept = λ name n. k.kept name (h.kept name n);
    noted = λ name e. elim (k.noted name e) [
      | inl e' ↦ elim (h.noted name e') [ inl e'' ↦ inl e'' | inr n ↦ inr (k.kept name n) ]
      | inr n ↦ inr n
    ];
  }

  pub bind-IsLater :
      {A B : Type 0} (m : Exec (State W E P) (Failure E) A)
      (f : A → Exec (State W E P) (Failure E) B) (s : State W E P)
      → IsLater s (m s).1
      → ((a : A) (t : State W E P) → IsLater t (f a t).1)
      → IsLater s ((m >>= f) s).1
  bind-IsLater {A = A} m f s h k = IsLater-trans h (continued (m s).0 (m s).1)
    where
      continued : (r : Result (Failure E) A) (t : State W E P) → IsLater t (continue r f t).1
      continued (ok a) t = k a t
      continued (err e) t = IsLater-refl t

  pub if-IsLater :
      {A : Type 0} (b : Bool) (x y : A × State W E P) (s : State W E P)
      → IsLater s x.1
      → IsLater s y.1
      → IsLater s (if b then x else y).1
  if-IsLater true x y s h k = h
  if-IsLater false x y s h k = k

  -- Whatever a call does to the world.
  pub IsLater-moved : (w : W) (s : State W E P) → IsLater s (record s { world = w })
  IsLater-moved w s = record {
    canceled = refl;
    error = refl;
    error_count = refl;
    build_pods = refl;
    terminations = refl;
    known = λ name k. k;
    kept = λ name n. n;
    noted = λ name k. inl k;
  }

module _ {W E P Log : Type 0} (cluster : Cluster W E P Log) where
  -- Of a pod that was noted.
  pub record_phase-IsLater :
      (name : NamespacedName) (phase : Phase) (s : State W E P)
      → IsNoted name s.calls
      → IsLater s (record_phase cluster name phase s).1
  record_phase-IsLater name phase s n = record {
    canceled = refl;
    error = refl;
    error_count = refl;
    build_pods = refl;
    terminations = refl;
    known = λ other k. ground (arith, find_phase-set_phase name other phase s.phases, k);
    kept = λ other m. m;
    noted = λ other k. elim (Bool-cases (same name other)) [
      | inl e ↦ inr (subst (λ x. IsNoted x s.calls) ((same_iff name other).0 e) n)
      | inr d ↦ inl (ground (arith, find_phase-set_phase name other phase s.phases, k, d))
    ];
  }

  log_call-IsLater :
      (c : Call P) (s : State W E P)
      → ((calls : List (Call P)) → terminations (c ∷ calls) ≡ terminations calls)
      → ((name : NamespacedName) (calls : List (Call P))
          → IsNoted name calls
          → IsNoted name (c ∷ calls))
      → IsLater s (log_call {W = W} {E = E} c s).1
  log_call-IsLater c s h k = record {
    canceled = refl;
    error = refl;
    error_count = refl;
    build_pods = refl;
    terminations = h s.calls;
    known = λ name e. e;
    kept = λ name n. k name s.calls n;
    noted = λ name e. inl e;
  }

  collect_logs-IsLater :
      (name : NamespacedName) (s : State W E P)
      → IsLater s (collect_build_pod_logs cluster name s).1
  unfolding collect_build_pod_logs
  collect_logs-IsLater name s =
      let path = log_path cluster name s.build_pods in
      bind-IsLater (call log_stream (cluster.stream_logs name)) _ s (IsLater-moved _ s) λ log t.
        bind-IsLater (call log_file (cluster.create_file path)) _ t (IsLater-moved _ t) λ _ t'.
          bind-IsLater (call writing_log (cluster.copy_log path log)) _ t' (IsLater-moved _ t')
            λ _ t''. log_call-IsLater (save_log path) t'' (λ calls. refl) (λ name' calls n. n)

  observe_pod-IsLater :
      (name : NamespacedName) (phase : Phase) (s : State W E P)
      → IsNoted name s.calls
      → IsLater s (observe_pod cluster name phase s).1
  unfolding observe_pod
  observe_pod-IsLater name phase s n =
      if-IsLater (phase_eq (or_else (find_phase name s.phases) unset) phase) _ _ s (IsLater-refl s)
        (recorded _ (if_final (is_final phase)))
    where
      recorded :
          (x : Result (Failure E) (Unit {0}) × State W E P)
          → IsLater s x.1
          → IsLater s (continue x.0 (λ _. record_phase cluster name phase) x.1).1
      recorded (ok _, t) h = IsLater-trans h (record_phase-IsLater name phase t (h.kept name n))
      recorded (err e, t) h = h

      if_final :
          (b : Bool) → IsLater s ((if b then collect_build_pod_logs cluster name else pure tt) s).1
      if_final true = collect_logs-IsLater name s
      if_final false = IsLater-refl s

  pub collect_pods-IsLater :
      (pods : List (NamespacedName × Phase)) (s : State W E P)
      → IsLater s (collect_pods cluster pods s).1
  unfolding collect_pods
  collect_pods-IsLater [] s = IsLater-refl s
  collect_pods-IsLater ((name, phase) ∷ pods) s =
      let seen = (log_call {W = W} {E = E} (saw_pod name) s).1 in
      IsLater-trans (log_call-IsLater (saw_pod name) s (λ calls. refl) (λ other calls n. inr n)) (
        bind-IsLater (observe_pod cluster name phase) _ seen
          (observe_pod-IsLater name phase seen (inl refl))
          λ _ t.
            bind-IsLater (collect_pods cluster pods) _ t (collect_pods-IsLater pods t)
              λ _ u. IsLater-refl u)

  pub create-IsLater :
      (p : BuildPod P) (s : State W E P) → IsLater s (create_build_pod cluster p s).1
  create-IsLater p s =
      bind-IsLater (call creating_pod (cluster.create_pod p.pod)) _ s (IsLater-moved _ s) λ phase t.
        IsLater-trans (log_call-IsLater (start_pod p) t (λ calls. refl) (λ other calls n. inr n))
          (record_phase-IsLater (name_of p) phase _ (inl refl))
