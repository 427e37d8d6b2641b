-- ===== src/ReleaseHandler/Classifying.antt =====
-- Which version change classifyVersionChange sees.
use ci_infra_gardener.Prelude.{◌≤◌, ◌<◌, ◌≡◌, ◌≢◌, ◌↔◌, ◌⊎◌, true, [], arith, ok, err, ==_iff}
use ci_infra_gardener.ReleaseHandler.{
  Remote, version_not_supported, prepare_new_major_minor_version, change_of,
}

module _ {W E V : Type 0} (remote : Remote W E V) where
  open remote use {greater, major, minor, patch, prerelease}

  -- Semantic versioning: a version of higher precedence is not below in its three numbers, the major
  -- number first.
  abbrev pub RespectsNumbers : Type 0
  RespectsNumbers =
      (a b : V)
      → greater a b ≡ true
      → (major b < major a)
        ⊎ ((major b ≡ major a)
            × ((minor b < minor a) ⊎ ((minor b ≡ minor a) × (patch b ≤ patch a))))

  -- The next major or minor version is being prepared exactly if the version increases, both versions
  -- are prereleases, and the major number or, at the same major number, the minor number increases.
  pub prepare_major_minor_iff :
      (current previous : V)
      → RespectsNumbers
      → (change_of remote current previous ≡ ok prepare_new_major_minor_version) ↔ (
          (greater current previous ≡ true)
          × (prerelease current ≢ [])
          × (prerelease previous ≢ [])
          × ((major previous < major current)
              ⊎ ((major previous ≡ major current) × (minor previous < minor current))))
  unfolding change_of
  prepare_major_minor_iff current previous law = (
    λ h. ground (
      arith,
      law current previous,
      ==_iff (prerelease current) [],
      ==_iff (prerelease previous) [],
    ),
    λ h. ground (arith, ==_iff (prerelease current) [], ==_iff (prerelease previous) []),
  )

  -- An increase is refused exactly if both versions are prereleases of the same three numbers.
  pub not_supported_iff :
      (current previous : V)
      → RespectsNumbers
      → (change_of remote current previous ≡ err version_not_supported) ↔ (
          (greater current previous ≡ true)
          × (prerelease current ≢ [])
          × (prerelease previous ≢ [])
          × (major previous ≡ major current)
          × (minor previous ≡ minor current)
          × (patch previous ≡ patch current))
  unfolding change_of
  not_supported_iff current previous law = (
    λ h. ground (
      arith,
      law current previous,
      ==_iff (prerelease current) [],
      ==_iff (prerelease previous) [],
    ),
    λ h. ground (arith, ==_iff (prerelease current) [], ==_iff (prerelease previous) []),
  )
