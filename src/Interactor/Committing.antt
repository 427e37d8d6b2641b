-- ===== src/Interactor/Committing.antt =====
-- CommitClient.Commit and CloneRepo of prow/pkg/githubinteractor/github.go. The run of a command in a
-- directory is the parameter `execute`, which stands for os/exec.
use ci_infra_gardener.Prelude.{
  Bool, not, ◌&&◌, List, [], ◌∷◌, ◌++◌, Text, codes, ◌==◌, if◌then◌else◌, Exec, Trace, perform,
  wrap, ◌>>◌,
}
use ci_infra_gardener.Interactor.{Remote, Repository}

pub data CommitError (E : Type 0) : Type 0 where
  git_add git_commit : E → CommitError E

pub record Command : Type 0 where
  pub directory : Text
  pub command : Text
  pub args : List Text

unfoldable pub commit_args : (name email message : Text) (signoff : Bool) → List Text
commit_args name email message signoff =
    let author =
      if not (name == []) && not (email == [])
      then codes "--author" ∷ (name ++ (codes " <" ++ (email ++ codes ">"))) ∷ []
      else [] in
    let signed = if signoff then codes "--signoff" ∷ [] else [] in
    codes "commit" ∷ codes "-m" ∷ message ∷ (author ++ signed)

module _ {W E : Type 0} (run : Command → Exec W E (Unit {0})) where
  unfoldable pub execute_cmd :
      (directory command : Text) (args : List Text) → Exec (Trace W Command) E (Unit {0})
  execute_cmd directory command args =
      let cmd : Command = record { directory = directory; command = command; args = args } in
      perform cmd (run cmd)

  unfoldable pub commit :
      (directory name email message : Text) (signoff : Bool)
      → Exec (Trace W Command) (CommitError E) (Unit {0})
  unfolding execute_cmd
  commit directory name email message signoff = do
    wrap git_add (execute_cmd directory (codes "git") (codes "add" ∷ codes "-A" ∷ []))
    wrap git_commit (execute_cmd directory (codes "git") (commit_args name email message signoff))

-- The client of the clone is set on success; its calls are those of `Remote`.
unfoldable pub clone_repo : {W E : Type 0} → Remote W E → Repository → Exec W E (Unit {0})
clone_repo remote r = remote.client_for r.org r.repo
