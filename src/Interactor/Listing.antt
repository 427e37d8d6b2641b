-- ===== src/Interactor/Listing.antt =====
-- GetFileNames of prow/pkg/githubinteractor/github.go. What os.ReadDir finds is data: the entries of a
-- directory in their order, those of its directories within; path.Join is the parameter `path_join`.
pub mod Finding
use ci_infra_gardener.Prelude.{
  Bool, true, false, not, ◌||◌, List, [], ◌∷◌, ◌++◌, Text, contains, if◌then◌else◌, Result, ok, err,
  then_result,
}

pub data Files (E : Type 0) : Type 0 where
  none_left : Files E
  file : (name : Text) (rest : Files E) → Files E
  directory : (name : Text) (content rest : Files E) → Files E
  unreadable_directory : (name : Text) (e : E) (rest : Files E) → Files E

module _ {E : Type 0} (path_join : Text → Text → Text) (ignored : List Text)
    (recursive : Bool) where
  -- The loop over the entries of `dir`.
  unfoldable pub names_from : (dir : Text) → Files E → Result E (List Text)
  names_from dir none_left = ok []
  names_from dir (file name rest) =
      let later = names_from dir rest in
      if contains ignored name
      then later
      else then_result later (λ names. ok (path_join dir name ∷ names))
  names_from dir (directory name content rest) =
      let within = names_from (path_join dir name) content in
      let later = names_from dir rest in
      if contains ignored name || not recursive
      then later
      else then_result within (λ found. then_result later (λ names. ok (found ++ names)))
  names_from dir (unreadable_directory name e rest) =
      let later = names_from dir rest in
      if contains ignored name || not recursive then later else err e

  unfoldable pub get_file_names : (dir : Text) → Result E (Files E) → Result E (List Text)
  get_file_names dir listing = then_result listing (names_from dir)
