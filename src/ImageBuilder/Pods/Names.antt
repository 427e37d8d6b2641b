-- ===== src/ImageBuilder/Pods/Names.antt =====
-- The length of a build pod's name, getBuildPodName of prow/cmd/image-builder/buildcontroller.go.
use ci_infra_gardener.Prelude.{
  ◌+◌, ◌≤◌, ◌<◌, ◌≡◌, ◌↔◌, inl, inr, ◌++◌, arith, Text, codes, take, length, leb, length-append,
  length-take, Bool-cases,
}
use ci_infra_gardener.ImageBuilder.Options.{Options}
use ci_infra_gardener.ImageBuilder.Pods.{Sources, dashed, get_build_pod_name}

length-dashed : (a b : Text) → length (dashed a b) ≡ length a + 1 + length b
length-dashed a b = ground (arith, length-append a (codes "-" ++ b))

module _ {W E P : Type 0} (sources : Sources W E P) (options : Options) where
  -- A hash has 64 hexadecimal digits.
  abbrev pub IsSha256 : Type 0
  IsSha256 = (text : Text) → length (sources.sha256 text) ≡ 64

  length-hashed :
      (parent suffix : Text)
      → IsSha256
      → 64 < length parent + length suffix
      → length (take 64 (dashed (take 59 (dashed parent suffix)) (sources.sha256 suffix))) ≡ 64
  length-hashed parent suffix h long =
      length-take 64 (dashed (take 59 (dashed parent suffix)) (sources.sha256 suffix)) (
        omega (
          arith,
          h suffix,
          length-dashed (take 59 (dashed parent suffix)) (sources.sha256 suffix),
          length-take 59 (dashed parent suffix) (omega (arith, length-dashed parent suffix)),
        ))

  -- The name of a build pod has at most 65 bytes, and 65 only if the names of the parent, the repository
  -- and the target, with the dash between the last two, have 64 together.
  pub get_build_pod_name-length :
      (parent target : Text)
      → IsSha256
      → (length (get_build_pod_name sources options parent target) ≤ 65)
        × ((length (get_build_pod_name sources options parent target) ≡ 65)
            ↔ (length parent + length (dashed options.repo target) ≡ 64))
  unfolding get_build_pod_name
  get_build_pod_name-length parent target h =
      let suffix = dashed options.repo target in
      elim (Bool-cases (leb (length parent + length suffix) 64)) [
        | inl short ↦
            let n : length (dashed parent suffix) ≡ length parent + 1 + length suffix =
              length-dashed parent suffix in
            rw short (ground (arith, n, short), (λ e. ground (arith, n), λ e. ground (arith, n)))
        | inr long ↦ elim (Bool-cases (leb (length parent + 9) 64)) [
          | inl some_room ↦
              let n = length-hashed parent suffix h (ground (arith, long)) in
              rw (long, some_room)
                (ground (arith, n), (λ e. ground (arith, n, long), λ e. ground (arith, n, long)))
          | inr none ↦
              let n = h (dashed parent suffix) in
              rw (long, none)
                (ground (arith, n), (λ e. ground (arith, n, long), λ e. ground (arith, n, long)))
        ]
      ]
