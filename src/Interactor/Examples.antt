-- ===== src/Interactor/Examples.antt =====
-- A GitHub and a git whose calls succeed, for runs of PushChanges, a directory for GetFileNames, and the
-- theorems at such runs.
use ci_infra_gardener.Prelude.{
  ◌≡◌, refl, Bool, true, false, some, List, [], ◌∷◌, ◌++◌, ◌==◌, contains, Text, codes, Trace,
  Result, ok, err, Exec, if◌then◌else◌,
}
use ci_infra_gardener.Interactor.{Remote, Call, Repository}
use ci_infra_gardener.Interactor.Pushing.{push_changes}
use ci_infra_gardener.Interactor.Listing.{
  Files, none_left, file, directory, unreadable_directory, names_from, get_file_names,
}
use ci_infra_gardener.Interactor.Listing.Finding.{IsListing, get_file_names-IsListing}
use ci_infra_gardener.Interactor.Committing.{Command, git_commit, commit, commit_args, execute_cmd}

abbrev pub succeed : {A : Type 0} → A → Exec (Unit {0}) Text A
succeed a w = (ok a, w)

abbrev pub fake_remote : Remote (Unit {0}) Text
fake_remote = record {
  split_repo_name = λ name. ok (codes "org", codes "repo");
  get_branches = λ org repo only_protected. succeed [];
  get_pull_requests = λ org repo. succeed [];
  ensure_fork = λ user org repo. succeed repo;
  create_pull_request = λ org repo title body head base. succeed 7;
  add_labels = λ org repo number labels. succeed tt;
  client_for = λ org repo. succeed tt;
  config = λ key value. succeed tt;
  branch_exists = λ branch w. false;
  checkout = λ branch. succeed tt;
  checkout_new_branch = λ branch. succeed tt;
  commit = λ name email message. succeed tt;
  push_to_named_fork = λ fork branch force. succeed tt;
  clean = succeed tt;
}

abbrev pub upstream : Repository
upstream = record {
  full_repo_name = codes "org/repo";
  org = codes "org";
  repo = codes "repo";
  gh = record {
    bot_user = record { login = codes "bot"; name = codes "Bot"; email = codes "bot@ci" };
    email = [];
  };
}

-- The same, but for a commit that finds nothing to commit.
abbrev nothing_to_commit : Remote (Unit {0}) Text
nothing_to_commit = record fake_remote { commit = λ name email message w. (err (codes "clean"), w) }

abbrev start : Trace (Unit {0}) Call
start = record { world = tt; calls = [] }

abbrev final : Trace (Unit {0}) Call
final =
    (push_changes fake_remote upstream (codes "org/repo") (codes "master") (codes "update")
      (codes "m") (codes "t") (some (codes "kind/ci" ∷ [])) start).1

abbrev path_join : Text → Text → Text
path_join dir name = dir ++ (codes "/" ++ name)

abbrev job_files : Files Text
job_files =
    directory (codes "sub") (file (codes "b") (file (codes "old") none_left))
      (unreadable_directory (codes "old") (codes "denied") (file (codes "a") none_left))

abbrev list_jobs : (recursive : Bool) → Result Text (List Text)
list_jobs recursive =
    get_file_names path_join (codes "old" ∷ []) recursive (codes "d") (ok job_files)

lists_all : list_jobs true ≡ ok (codes "d/sub/b" ∷ codes "d/a" ∷ [])
unfolding get_file_names names_from contains ◌==◌
lists_all = refl

lists_own : list_jobs false ≡ ok (codes "d/a" ∷ [])
unfolding get_file_names names_from contains ◌==◌
lists_own = refl

get_file_names-IsListing_example :
    IsListing path_join (codes "old" ∷ []) true (codes "d") job_files (list_jobs true)
get_file_names-IsListing_example =
    get_file_names-IsListing path_join (codes "old" ∷ []) true (codes "d") job_files

-- A git that finds nothing to commit: the files are staged all the same.
abbrev run_git : Command → Exec (Unit {0}) Text (Unit {0})
run_git c w = if contains c.args (codes "add") then (ok tt, w) else (err (codes "clean"), w)

abbrev commit_call : Command
commit_call = record {
  directory = codes "d";
  command = codes "git";
  args = commit_args (codes "Bot") [] (codes "m") true;
}

abbrev add_call : Command
add_call = record {
  directory = codes "d";
  command = codes "git";
  args = codes "add" ∷ codes "-A" ∷ [];
}

nothing_committed :
    commit run_git (codes "d") (codes "Bot") [] (codes "m") true (record { world = tt; calls = [] })
    ≡ (err (git_commit (codes "clean")), record { world = tt; calls = commit_call ∷ add_call ∷ [] })
unfolding commit commit_args execute_cmd contains ◌==◌
nothing_committed = refl

without_author :
    commit_args (codes "Bot") [] (codes "m") true
    ≡ codes "commit" ∷ codes "-m" ∷ codes "m" ∷ codes "--signoff" ∷ []
unfolding commit_args ◌==◌
without_author = refl
