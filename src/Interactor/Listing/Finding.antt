-- ===== src/Interactor/Listing/Finding.antt =====
-- What GetFileNames of prow/pkg/githubinteractor/github.go lists, on every tree of files.
use ci_infra_gardener.Prelude.{
  ◌≡◌, refl, ◌↔◌, ◌⊎◌, inl, inr, Bool, true, false, not, ◌||◌, List, ◌∷◌, ◌++◌, arith, Text,
  contains, if◌then◌else◌, Result, ok, err, then_result, Has, Has-append_left, Has-append_right,
  Has-append_cases,
}
use ci_infra_gardener.Interactor.Listing.{
  Files, none_left, file, directory, unreadable_directory, names_from, get_file_names,
}

module _ {E : Type 0} (path_join : Text → Text → Text) (ignored : List Text)
    (recursive : Bool) where
  -- `p` is the path of a file none of whose names below `dir` is ignored.
  abbrev pub Found : (dir : Text) → Files E → Text → Type 0
  Found dir none_left p = ⊥
  Found dir (file name rest) p =
      ((contains ignored name ≡ false) × (p ≡ path_join dir name)) ⊎ Found dir rest p
  Found dir (directory name content rest) p =
      ((contains ignored name ≡ false)
        × ((recursive ≡ true) × Found (path_join dir name) content p))
      ⊎ Found dir rest p
  Found dir (unreadable_directory name e rest) p = Found dir rest p

  -- A directory that is to be read fails with `e`.
  abbrev pub Blocked : Files E → E → Type 0
  Blocked none_left e = ⊥
  Blocked (file name rest) e = Blocked rest e
  Blocked (directory name content rest) e =
      ((contains ignored name ≡ false) × ((recursive ≡ true) × Blocked content e)) ⊎ Blocked rest e
  Blocked (unreadable_directory name e' rest) e =
      ((contains ignored name ≡ false) × ((recursive ≡ true) × (e ≡ e'))) ⊎ Blocked rest e

  abbrev pub IsListing : (dir : Text) → Files E → Result E (List Text) → Type 0
  IsListing dir files (ok names) =
      ((p : Text) → Has p names ↔ Found dir files p) × ((e : E) → ¬ Blocked files e)
  IsListing dir files (err e) = Blocked files e

  IsListing-file :
      (dir name : Text) (rest : Files E) (skip : Bool)
      → contains ignored name ≡ skip
      → (later : Result E (List Text)) → IsListing dir rest later
      → IsListing dir
          (file name rest)
          (if skip then later else then_result later (λ names. ok (path_join dir name ∷ names)))
  IsListing-file dir name rest true q (ok names) h =
      (λ p. (λ k. inr ((h.0 p).0 k), λ k. ground (arith, (h.0 p).1)), h.1)
  IsListing-file dir name rest true q (err e) h = h
  IsListing-file dir name rest false q (ok names) h =
      (λ p. (λ k. ground (arith, (h.0 p).0), λ k. ground (arith, (h.0 p).1)), h.1)
  IsListing-file dir name rest false q (err e) h = h

  IsListing-directory :
      (dir name : Text) (content rest : Files E) (skip descend : Bool)
      → contains ignored name ≡ skip
      → recursive ≡ descend
      → (within later : Result E (List Text)) → IsListing (path_join dir name) content within
      → IsListing dir rest later
      → IsListing dir (directory name content rest) (
          if skip || not descend
          then later
          else then_result within (λ found. then_result later (λ names. ok (found ++ names))))
  IsListing-directory dir name content rest true descend q t within (ok names) i h =
      (λ p. (λ k. inr ((h.0 p).0 k), λ k. ground (arith, (h.0 p).1)), λ e k. ground (arith, h.1 e))
  IsListing-directory dir name content rest true descend q t within (err e) i h = inr h
  IsListing-directory dir name content rest false false q t within (ok names) i h =
      (λ p. (λ k. inr ((h.0 p).0 k), λ k. ground (arith, (h.0 p).1)), λ e k. ground (arith, h.1 e))
  IsListing-directory dir name content rest false false q t within (err e) i h = inr h
  IsListing-directory dir name content rest false true q t (err e) later i h = inl (q, (t, i))
  IsListing-directory dir name content rest false true q t (ok found) (err e) i h = inr h
  IsListing-directory dir name content rest false true q t (ok found) (ok names) i h = (
    λ p. (
      λ k. elim (Has-append_cases p found names k) [
        | inl m ↦ inl (q, (t, (i.0 p).0 m))
        | inr m ↦ inr ((h.0 p).0 m)
      ],
      λ k. elim k [
        | inl m ↦ Has-append_left p found names ((i.0 p).1 m.1.1)
        | inr m ↦ Has-append_right p found names ((h.0 p).1 m)
      ],
    ),
    λ e k. elim k [ inl m ↦ i.1 e m.1.1 | inr m ↦ h.1 e m ],
  )

  IsListing-unreadable_directory :
      (dir name : Text) (e : E) (rest : Files E) (skip descend : Bool)
      → contains ignored name ≡ skip
      → recursive ≡ descend
      → (later : Result E (List Text)) → IsListing dir rest later
      → IsListing dir
          (unreadable_directory name e rest)
          (if skip || not descend then later else err e)
  IsListing-unreadable_directory dir name e rest true descend q t (ok names) h =
      (h.0, λ e' k. ground (arith, h.1 e'))
  IsListing-unreadable_directory dir name e rest true descend q t (err e') h = inr h
  IsListing-unreadable_directory dir name e rest false false q t (ok names) h =
      (h.0, λ e' k. ground (arith, h.1 e'))
  IsListing-unreadable_directory dir name e rest false false q t (err e') h = inr h
  IsListing-unreadable_directory dir name e rest false true q t later h = inl (q, (t, refl))

  names_from-IsListing :
      (dir : Text) (files : Files E)
      → IsListing dir files (names_from path_join ignored recursive dir files)
  unfolding names_from
  names_from-IsListing dir none_left = (λ p. (λ k. k, λ k. k), λ e k. k)
  names_from-IsListing dir (file name rest) =
      IsListing-file dir name rest (contains ignored name) refl
        (names_from path_join ignored recursive dir rest) (names_from-IsListing dir rest)
  names_from-IsListing dir (directory name content rest) =
      IsListing-directory dir name content rest (contains ignored name) recursive refl refl
        (names_from path_join ignored recursive (path_join dir name) content)
        (names_from path_join ignored recursive dir rest)
        (names_from-IsListing (path_join dir name) content) (names_from-IsListing dir rest)
  names_from-IsListing dir (unreadable_directory name e rest) =
      IsListing-unreadable_directory dir name e rest (contains ignored name) recursive refl refl
        (names_from path_join ignored recursive dir rest) (names_from-IsListing dir rest)

  -- Of a directory that can be read, GetFileNames returns exactly the paths of the files whose names,
  -- and those of the directories above them, are not ignored (without `recursive` only of those in the
  -- directory itself), if no directory that it has to read fails; otherwise it returns the error of
  -- one that fails.
  pub get_file_names-IsListing :
      (dir : Text) (files : Files E)
      → IsListing dir files (get_file_names path_join ignored recursive dir (ok files))
  unfolding get_file_names
  get_file_names-IsListing dir files = names_from-IsListing dir files
