-- ===== src/ImageBuilder/Controller/Starting.antt =====
-- Which pods startNextBuildPods of prow/cmd/image-builder/buildcontroller.go starts. The loop is followed for
-- the part of the build pods that is left.
use ci_infra_gardener.Prelude.{
  ℕ, suc, ◌≤◌, ◌<◌, ◌≡◌, refl, ap, subst, inl, inr, ◌⊎◌, Bool, true, false, not, ◌&&◌, List, [],
  ◌∷◌, arith, Text, ◌==◌, if◌then◌else◌, Bool-cases, Result-cases, Result, ok, err, Has, ◌>>=◌,
}
use ci_infra_gardener.ImageBuilder.Options.{is_empty}
use ci_infra_gardener.ImageBuilder.Pods.{BuildPod}
use ci_infra_gardener.ImageBuilder.Controller.{
  NamespacedName, Phase, same, same_iff, find_phase-set_phase, start_pod, Failure, State, Cluster,
  name_of,
}
use ci_infra_gardener.ImageBuilder.Controller.Running.{
  create_build_pod, start_from, start_next_build_pods,
}
use ci_infra_gardener.ImageBuilder.Controller.Keeping.{
  is_known, IsLater, IsLater-refl, bind-IsLater, if-IsLater, create-IsLater,
}

-- The number of the pods whose phase is not known.
abbrev pub missing : {W E P : Type 0} → State W E P → List (BuildPod P) → ℕ
missing s [] = 0
missing s (p ∷ ps) = let rest = missing s ps in if is_known s (name_of p) then rest else suc rest

pub missing-IsLater :
    {W E P : Type 0} (s t : State W E P) (ps : List (BuildPod P))
    → IsLater s t
    → missing t ps ≤ missing s ps
missing-IsLater s t [] h = omega arith
missing-IsLater s t (p ∷ ps) h = ground (arith, missing-IsLater s t ps h, h.known (name_of p))

module _ {W E P Log : Type 0} (cluster : Cluster W E P Log) where
  -- After a pod was created without an error it is known, and nothing else was called.
  unfoldable pub IsCreated :
      (p : BuildPod P) (s : State W E P) → Result (Failure E) (Unit {0}) → State W E P → Type 0
  IsCreated p s (ok _) t = (is_known t (name_of p) ≡ true) × (t.calls ≡ start_pod p ∷ s.calls)
  IsCreated p s (err e) t = t.calls ≡ s.calls

  create-IsCreated :
      (p : BuildPod P) (s : State W E P)
      → IsCreated p s (create_build_pod cluster p s).0 (create_build_pod cluster p s).1
  unfolding IsCreated
  create-IsCreated p s = elim (Result-cases (cluster.create_pod p.pod s.world).0) [
    | inl (phase, good) ↦ rw good (
      ground (
        arith,
        find_phase-set_phase (name_of p) (name_of p) phase s.phases,
        same_iff (name_of p) (name_of p),
      ),
      refl,
    )
    | inr (e, bad) ↦ rw bad refl
  ]

  pub IsCreated-at :
      (p : BuildPod P) (s : State W E P) {r : Result (Failure E) (Unit {0})}
      → (create_build_pod cluster p s).0 ≡ r
      → IsCreated p s r (create_build_pod cluster p s).1
  IsCreated-at p s e =
      subst (λ r. IsCreated p s r (create_build_pod cluster p s).1) e (create-IsCreated p s)

  start_from-IsLater :
      (group : Text) (created : Bool) (ps : List (BuildPod P)) (s : State W E P)
      → IsLater s (start_from cluster group created ps s).1
  unfolding start_from
  start_from-IsLater group created [] s = IsLater-refl s
  start_from-IsLater group created (p ∷ ps) s =
      if-IsLater (is_known s (name_of p)) _ _ s (start_from-IsLater group created ps s) (
        if-IsLater (not (is_empty group) && not (group == p.build_group)) _ _ s (IsLater-refl s) (
          bind-IsLater (create_build_pod cluster p) _ s (create-IsLater cluster p s)
            λ _ t. start_from-IsLater p.build_group true ps t))

  pub start_next_build_pods-IsLater :
      (s : State W E P) → IsLater s (start_next_build_pods cluster s).1
  unfolding start_next_build_pods
  start_next_build_pods-IsLater s = start_from-IsLater [] false s.build_pods s

  -- Pods were started, so that fewer are missing; or none was, and none is missing or a group ended.
  abbrev Progress :
      State W E P → Text → Bool → List (BuildPod P) → Result (Failure E) Bool → State W E P → Type 0
  Progress s group created ps (ok b) t =
      ((b ≡ true) × (missing t ps < missing s ps))
      ⊎ ((b ≡ created) × ((missing t ps ≡ 0) ⊎ (is_empty group ≡ false)))
  Progress s group created ps (err e) t = Unit

  Progress-skip :
      (s t : State W E P) (group : Text) (created : Bool) (p : BuildPod P) (ps : List (BuildPod P))
      (r : Result (Failure E) Bool)
      → is_known s (name_of p) ≡ true
      → IsLater s t
      → Progress s group created ps r t
      → Progress s group created (p ∷ ps) r t
  Progress-skip s t group created p ps (ok b) k h g = rw (k, h.known (name_of p) k) g
  Progress-skip s t group created p ps (err e) k h g = tt

  Progress-created :
      (s t u : State W E P) (group : Text) (created : Bool) (p : BuildPod P)
      (ps : List (BuildPod P)) (r : Result (Failure E) Bool)
      → is_known s (name_of p) ≡ false
      → is_known t (name_of p) ≡ true
      → IsLater s t
      → IsLater t u
      → Progress t p.build_group true ps r u
      → Progress s group created (p ∷ ps) r u
  Progress-created s t u group created p ps (ok b) n k h l g = inl (
      rw (n, l.known (name_of p) k)
        (ground (arith, missing-IsLater t u ps l, missing-IsLater s t ps h)))
  Progress-created s t u group created p ps (err e) n k h l g = tt

  start_from-Progress :
      (group : Text) (created : Bool) (ps : List (BuildPod P)) (s : State W E P)
      → Progress s group created ps
          (start_from cluster group created ps s).0
          (start_from cluster group created ps s).1
  unfolding start_from IsCreated
  start_from-Progress group created [] s = inr (refl, inl refl)
  start_from-Progress group created (p ∷ ps) s =
      let c = create_build_pod cluster p s in
      elim (Bool-cases (is_known s (name_of p))) [
        | inl k ↦ rw k (
            Progress-skip s _ group created p ps _ k (start_from-IsLater group created ps s)
              (start_from-Progress group created ps s))
        | inr n ↦ elim (Bool-cases (not (is_empty group) && not (group == p.build_group))) [
          | inl new ↦ rw (n, new) (inr (refl, inr (ground (arith, new))))
          | inr same_group ↦ elim (Result-cases c.0) [
            | inl (_, good) ↦
                rw (n, same_group, good)
                  (Progress-created s c.1 _ group created p ps _ n (IsCreated-at p s good).0
                    (create-IsLater cluster p s) (start_from-IsLater p.build_group true ps c.1)
                    (start_from-Progress p.build_group true ps c.1))
            | inr (e, bad) ↦ rw (n, same_group, bad) tt
          ]
        ]
      ]

  -- A pod with the name is among these, and Create returned no error for it.
  pub record WasCreated (ps : List (BuildPod P)) (name : NamespacedName) : Type 0 where
    pub pod : BuildPod P
    pub one_of : Has pod ps
    pub named : name_of pod ≡ name
    pub world : W
    pub phase : Phase
    pub created : (cluster.create_pod pod.pod world).0 ≡ ok phase

  WasCreated-later :
      (p : BuildPod P) (ps : List (BuildPod P)) (name : NamespacedName)
      → WasCreated ps name
      → WasCreated (p ∷ ps) name
  WasCreated-later p ps name h = record {
    pod = h.pod;
    one_of = inr h.one_of;
    named = h.named;
    world = h.world;
    phase = h.phase;
    created = h.created;
  }

  -- What becomes known in a part of a round was created in it.
  abbrev AreCreated : List (BuildPod P) → State W E P → State W E P → Type 0
  AreCreated ps s t =
      (name : NamespacedName)
      → is_known t name ≡ true
      → (is_known s name ≡ true) ⊎ WasCreated ps name

  create-AreCreated :
      (p : BuildPod P) (ps : List (BuildPod P)) (s : State W E P)
      → AreCreated (p ∷ ps) s (create_build_pod cluster p s).1
  create-AreCreated p ps s name k = elim (Result-cases (cluster.create_pod p.pod s.world).0) [
    | inr (e, bad) ↦ inl (ground (arith, k, bad))
    | inl (phase, good) ↦ elim (Bool-cases (same (name_of p) name)) [
      | inl e ↦ inr (record {
        pod = p;
        one_of = inl refl;
        named = (same_iff (name_of p) name).0 e;
        world = s.world;
        phase = phase;
        created = good;
      })
      | inr d ↦
          inl (ground (arith, find_phase-set_phase (name_of p) name phase s.phases, k, d, good))
    ]
  ]

  continued-AreCreated :
      (p : BuildPod P) (ps : List (BuildPod P)) (s : State W E P)
      → AreCreated ps
          (create_build_pod cluster p s).1
          (start_from cluster p.build_group true ps (create_build_pod cluster p s).1).1
      → AreCreated
          (p ∷ ps)
          s
          ((create_build_pod cluster p >>= (λ _. start_from cluster p.build_group true ps)) s).1
  continued-AreCreated p ps s h name =
      let c = create_build_pod cluster p s in
      elim (Result-cases c.0) [
        | inr (e, bad) ↦ rw bad (λ k. create-AreCreated p ps s name k)
        | inl (_, good) ↦ rw good (λ k. elim (h name k) [
          | inl before ↦ create-AreCreated p ps s name before
          | inr made ↦ inr (WasCreated-later p ps name made)
        ])
      ]

  start_from-AreCreated :
      (group : Text) (created : Bool) (ps : List (BuildPod P)) (s : State W E P)
      → AreCreated ps s (start_from cluster group created ps s).1
  unfolding start_from
  start_from-AreCreated group created [] s name = λ k. inl k
  start_from-AreCreated group created (p ∷ ps) s name = elim (Bool-cases (is_known s (name_of p))) [
    | inl known ↦ rw known (λ k. elim (start_from-AreCreated group created ps s name k) [
      | inl before ↦ inl before
      | inr made ↦ inr (WasCreated-later p ps name made)
    ])
    | inr n ↦ elim (Bool-cases (not (is_empty group) && not (group == p.build_group))) [
      | inl new ↦ rw (n, new) (λ k. inl k)
      | inr same_group ↦
          rw (n, same_group)
            (continued-AreCreated p ps s
              (start_from-AreCreated p.build_group true ps (create_build_pod cluster p s).1) name)
    ]
  ]

  -- If a round starts pods, fewer are left whose phase is not known; a round that starts none, and returns no
  -- error, leaves none. Whatever the result, the phase of a pod becomes known in the round only if it is one of
  -- the build pods and Create returned no error for it.
  pub start_next_build_pods-progress :
      (s : State W E P)
      → (((e : Failure E) × ((start_next_build_pods cluster s).0 ≡ err e))
          ⊎ ((((start_next_build_pods cluster s).0 ≡ ok true)
                × (missing (start_next_build_pods cluster s).1 s.build_pods
                    < missing s s.build_pods))
              ⊎ (((start_next_build_pods cluster s).0 ≡ ok false)
                  × (missing (start_next_build_pods cluster s).1 s.build_pods ≡ 0))))
        × AreCreated s.build_pods s (start_next_build_pods cluster s).1
  unfolding start_next_build_pods
  start_next_build_pods-progress s = (
    decided _ _ (start_from-Progress [] false s.build_pods s),
    start_from-AreCreated [] false s.build_pods s,
  )
    where
      decided :
          (r : Result (Failure E) Bool) (t : State W E P)
          → Progress s [] false s.build_pods r t
          → ((e : Failure E) × (r ≡ err e))
            ⊎ (((r ≡ ok true) × (missing t s.build_pods < missing s s.build_pods))
                ⊎ ((r ≡ ok false) × (missing t s.build_pods ≡ 0)))
      decided (ok b) t (inl (e, less)) = inr (inl (ap ok e, less))
      decided (ok b) t (inr (e, inl none_missing)) = inr (inr (ap ok e, none_missing))
      decided (ok b) t (inr (e, inr h)) = absurd (ground (arith, h))
      decided (err e) t h = inl (e, refl)
