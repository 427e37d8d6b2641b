-- ===== src/ImageBuilder/Controller/Grouping.antt =====
-- The pods that one round of startNextBuildPods of prow/cmd/image-builder/buildcontroller.go starts are of one
-- group.
use ci_infra_gardener.Prelude.{
  ◌≡◌, refl, sym, ap, subst, ◌∙◌, inl, inr, Bool, true, false, not, ◌&&◌, List, [], ◌∷◌, ◌++◌,
  arith, Text, ◌==◌, ==_iff, All, All-append, Has, map, if◌then◌else◌, Bool-cases, Result-cases,
}
use ci_infra_gardener.ImageBuilder.Options.{is_empty}
use ci_infra_gardener.ImageBuilder.Pods.{BuildPod}
use ci_infra_gardener.ImageBuilder.Controller.{NamespacedName, start_pod, State, Cluster, name_of}
use ci_infra_gardener.ImageBuilder.Controller.Running.{
  create_build_pod, start_from, start_next_build_pods,
}
use ci_infra_gardener.ImageBuilder.Controller.Keeping.{is_known, IsLater, create-IsLater}
use ci_infra_gardener.ImageBuilder.Controller.Starting.{IsCreated, IsCreated-at}

-- The group of the first pod that was not started.
abbrev pub next_group : {W E P : Type 0} → State W E P → List (BuildPod P) → Text
next_group s [] = []
next_group s (p ∷ ps) =
    let rest = next_group s ps in if is_known s (name_of p) then rest else p.build_group

-- A build pod of the list, of the group, that was not started.
abbrev pub IsDue : {W E P : Type 0} → State W E P → Text → List (BuildPod P) → BuildPod P → Type 0
IsDue s group ps p = (p.build_group ≡ group) × (is_known s (name_of p) ≡ false) × Has p ps

-- The calls since a state are the creation of such pods.
abbrev pub Started :
    {W E P : Type 0} → State W E P → Text → List (BuildPod P) → State W E P → Type 0
Started {P = P} s group ps t =
    (created : List (BuildPod P)) × (t.calls ≡ map start_pod created ++ s.calls)
    × All (IsDue s group ps) created

map-snoc :
    {A B : Type 0} (f : A → B) (xs : List A) (a : A) (ys : List B)
    → map f xs ++ (f a ∷ ys) ≡ map f (xs ++ (a ∷ [])) ++ ys
map-snoc f [] a ys = refl
map-snoc f (x ∷ xs) a ys = ap (λ r. f x ∷ r) (map-snoc f xs a ys)

module _ {W E P Log : Type 0} (cluster : Cluster W E P Log) where
  IsDue-weaken :
      (s t : State W E P) (group : Text) (p : BuildPod P) (ps created : List (BuildPod P))
      → ((name : NamespacedName) → is_known s name ≡ true → is_known t name ≡ true)
      → All (IsDue t group ps) created
      → All (IsDue s group (p ∷ ps)) created
  IsDue-weaken s t group p ps [] k h = tt
  IsDue-weaken s t group p ps (c ∷ cs) k h = (
    (h.0.0, ground (arith, k (name_of c), h.0.1), inr h.0.2),
    IsDue-weaken s t group p ps cs k h.1,
  )

  Started-skip :
      (s t : State W E P) (group : Text) (p : BuildPod P) (ps : List (BuildPod P))
      → Started s group ps t
      → Started s group (p ∷ ps) t
  Started-skip s t group p ps (created, calls, due) =
      (created, calls, IsDue-weaken s s group p ps created (λ name k. k) due)

  Started-created :
      (s t u : State W E P) (p : BuildPod P) (ps : List (BuildPod P))
      → is_known s (name_of p) ≡ false
      → IsLater s t
      → t.calls ≡ start_pod p ∷ s.calls
      → Started t p.build_group ps u
      → Started s p.build_group (p ∷ ps) u
  Started-created s t u p ps n l c (created, calls, due) = (
    created ++ (p ∷ []),
    calls ∙ (ap (λ r. map start_pod created ++ r) c ∙ map-snoc start_pod created p s.calls),
    All-append _ created (p ∷ []) (IsDue-weaken s t p.build_group p ps created l.known due)
        ((refl, n, inl refl), tt),
  )

  -- A pod is created and then the rest of the loop runs, in the pod's group.
  abbrev Loop : List (BuildPod P) → Type 0
  Loop ps =
      (group : Text) (created : Bool) (s : State W E P)
      → is_empty group ≡ false
      → Started s group ps (start_from cluster group created ps s).1

  Started-first :
      (group : Text) (created : Bool) (p : BuildPod P) (ps : List (BuildPod P)) (s : State W E P)
      → is_empty p.build_group ≡ false
      → is_known s (name_of p) ≡ false
      → not (is_empty group) && not (group == p.build_group) ≡ false
      → Loop ps
      → Started s p.build_group (p ∷ ps) (start_from cluster group created (p ∷ ps) s).1
  unfolding start_from IsCreated
  Started-first group created p ps s full n same_group loop =
      let c = create_build_pod cluster p s in
      elim (Result-cases c.0) [
        | inl (_, good) ↦
            rw (n, same_group, good)
              (Started-created s c.1 (start_from cluster p.build_group true ps c.1).1 p ps n
                (create-IsLater cluster p s) (IsCreated-at cluster p s good).1
                (loop p.build_group true c.1 full))
        | inr (e, bad) ↦ rw (n, same_group, bad) ([], IsCreated-at cluster p s bad, tt)
      ]

  start_from-Started :
      (ps : List (BuildPod P)) → All (λ p. is_empty p.build_group ≡ false) ps → Loop ps
  unfolding start_from
  start_from-Started [] full group created s g = ([], refl, tt)
  start_from-Started (p ∷ ps) full group created s g = elim (Bool-cases (is_known s (name_of p))) [
    | inl k ↦ rw k (
        Started-skip s (start_from cluster group created ps s).1 group p ps
          (start_from-Started ps full.1 group created s g))
    | inr n ↦ elim (Bool-cases (not (is_empty group) && not (group == p.build_group))) [
      | inl new ↦ rw (n, new) ([], refl, tt)
      | inr same_group ↦
          let e : group ≡ p.build_group =
            ground (arith, g, same_group, ==_iff group p.build_group) in
          subst (λ g'. Started s g' (p ∷ ps) (start_from cluster group created (p ∷ ps) s).1)
            (sym e)
            (Started-first group created p ps s full.0 n same_group (start_from-Started ps full.1))
    ]
  ]

  start_from-next :
      (ps : List (BuildPod P)) (created : Bool) (s : State W E P)
      → All (λ p. is_empty p.build_group ≡ false) ps
      → Started s (next_group s ps) ps (start_from cluster [] created ps s).1
  unfolding start_from
  start_from-next [] created s full = ([], refl, tt)
  start_from-next (p ∷ ps) created s full = elim (Bool-cases (is_known s (name_of p))) [
    | inl k ↦ rw k (
        Started-skip s (start_from cluster [] created ps s).1 (next_group s ps) p ps
          (start_from-next ps created s full.1))
    | inr n ↦
        subst (λ g. Started s g (p ∷ ps) (start_from cluster [] created (p ∷ ps) s).1) (rw n refl)
          (Started-first [] created p ps s full.0 n refl (start_from-Started ps full.1))
  ]

  -- Where each group has a name, one round starts only pods of the group of the first pod that was not started,
  -- none of which was started before, and calls nothing else.
  pub start_next_build_pods-Started :
      (s : State W E P)
      → All (λ p. is_empty p.build_group ≡ false) s.build_pods
      → Started s (next_group s s.build_pods) s.build_pods (start_next_build_pods cluster s).1
  unfolding start_next_build_pods
  start_next_build_pods-Started s full = start_from-next s.build_pods false s full
