-- ===== src/JobForker/Forking.antt =====
-- forkJobs, removeOrphanedJobs, getReposFromJobFiles and generateForkedConfigurations of
-- prow/cmd/job-forker/forking.go, over an interface to the file system. Directories are written without
-- a slash at their end.
use ci_infra_gardener.Prelude.{
  Bool, true, false, not, ◌&&◌, ◌||◌, List, [], ◌∷◌, ◌++◌, Text, codes, map, if◌then◌else◌, Exec,
  Trace, Result, ok, err, map_err, pure, observe, perform, wrap, attempt, ◌>>=◌, ◌>>◌,
}
use ci_infra_gardener.Prelude.Sets.{insert_all}
use ci_infra_gardener.Interactor
use ci_infra_gardener.JobForker.{
  Job, Periodic, JobConfig, create_target_file_name, generate_presubmits, generate_postsubmits,
  generate_periodics, base, is_yaml, has_branch, belongs_to,
}

-- `list_files` is GetFileNames of the interactor; `create` and `write` are those of os.Create and its file.
pub record Files (W E S : Type 0) : Type 0 where
  pub exists : Text → W → Bool
  pub read_job_config : Text → Exec W E (JobConfig S)
  pub marshal : JobConfig S → Result E Text
  pub make_directory : Text → Exec W E (Unit {0})
  pub create : Text → Exec W E (Unit {0})
  pub write : (path content : Text) → Exec W E (Unit {0})
  pub list_files :
      (directory : Text) (ignored : List Text) (recursive : Bool) → Exec W E (List Text)
  pub remove : Text → Exec W E (Unit {0})
  pub is_not_exist : E → Bool

pub data Call : Type 0 where
  made_directory created removed : Text → Call
  wrote : (path content : Text) → Call

pub data ForkError (E : Type 0) : Type 0 where
  plain reading making_directory marshalling creating writing listing : E → ForkError E

pub record Generated (S : Type 0) : Type 0 where
  pub presubmits : List (Job S)
  pub postsubmits : List (Job S)
  pub periodics : List (Periodic S)

abbrev pub is_nil : {A : Type 0} → List A → Bool
is_nil [] = true
is_nil (x ∷ xs) = false

abbrev pub join_path : Text → Text → Text
join_path directory name = directory ++ (codes "/" ++ name)

unfoldable pub target_file : (directory repository branch : Text) → Text
target_file directory repository branch =
    join_path directory (base (create_target_file_name repository branch))

-- The payload of the file, whose maps are nil for no jobs.
unfoldable pub payload_of : {S : Type 0} → Text → Generated S → JobConfig S
payload_of repository g = record {
  presubmits = if is_nil g.presubmits then [] else (repository, g.presubmits) ∷ [];
  postsubmits = if is_nil g.postsubmits then [] else (repository, g.postsubmits) ∷ [];
  periodics = g.periodics;
}

unfoldable pub refs_of : {S : Type 0} → List (Periodic S) → List Text
refs_of [] = []
refs_of (p ∷ ps) = map (λ ref. ref.org_repo) p.extra_refs ++ refs_of ps

abbrev pub keys : {V : Type 0} → List (Text × V) → List Text
keys [] = []
keys ((k, v) ∷ m) = k ∷ keys m

module _ {W E S : Type 0} (files : Files W E S) where
  abbrev pub Action : Type 0 → Type 0
  Action A = Exec (Trace W Call) (ForkError E) A

  unfoldable pub generate_all : (repository branch : Text) → List Text → Action (Generated S)
  generate_all repository branch [] =
      pure (record { presubmits = []; postsubmits = []; periodics = [] })
  generate_all repository branch (file ∷ filenames) = do
    j ← wrap reading (observe (files.read_job_config file))
    rest ← generate_all repository branch filenames
    pure (record {
      presubmits = generate_presubmits j repository branch ++ rest.presubmits;
      postsubmits = generate_postsubmits j repository branch ++ rest.postsubmits;
      periodics = generate_periodics j repository branch ++ rest.periodics;
    })

  unfoldable pub write_payload : (target_dir path : Text) → JobConfig S → Action Bool
  write_payload target_dir path payload = do
    wrap making_directory (perform (made_directory target_dir) (files.make_directory target_dir))
    content ← λ s. (map_err marshalling (files.marshal payload), s)
    wrap creating (perform (created path) (files.create path))
    wrap writing (perform (wrote path content) (files.write path content))
    pure true

  unfoldable pub fork_jobs : (repository branch target_dir : Text) → List Text → Action Bool
  fork_jobs repository branch target_dir filenames s =
      let path = target_file target_dir repository branch in
      if files.exists path s.world
      then pure false s
      else (do
        g ← generate_all repository branch filenames
        if is_nil g.presubmits && is_nil g.postsubmits && is_nil g.periodics
            then pure false
            else write_payload target_dir path (payload_of repository g))
          s

  unfoldable pub remove_if_orphaned : (repository : Text) → List Text → Text → Action Bool
  remove_if_orphaned repository branches file =
      if not (is_yaml file)
      then pure false
      else if not (belongs_to repository file)
      then pure false
      else if has_branch repository branches file
      then pure false
      else (do wrap plain (perform (removed file) (files.remove file)); pure true)

  unfoldable pub remove_orphans :
      (changes : Bool) (repository : Text) → List Text → List Text → Action Bool
  remove_orphans changes repository branches [] = pure changes
  remove_orphans changes repository branches (file ∷ forked_files) = do
    gone ← remove_if_orphaned repository branches file
    remove_orphans (changes || gone) repository branches forked_files

  -- A directory that does not exist holds no files.
  unfoldable pub remove_orphaned_jobs :
      (repository : Text) → List Text → (forked_dir : Text) → Action Bool
  remove_orphaned_jobs repository branches forked_dir = do
    found ← attempt (observe (files.list_files forked_dir [] false))
    forked_files ← λ s. (
      elim found [
        | ok names ↦ ok names
        | err e ↦ if files.is_not_exist e then ok [] else err (listing e)
      ],
      s,
    )
    remove_orphans false repository branches forked_files

  -- The order of the repositories is that of a Go map, that is any; here the latest comes first.
  unfoldable pub get_repos_from_job_files : List Text → List Text → Action (List Text)
  unfolding refs_of
  get_repos_from_job_files repos [] = pure repos
  get_repos_from_job_files repos (file ∷ filenames) = do
    j ← wrap reading (observe (files.read_job_config file))
    get_repos_from_job_files
        (insert_all (refs_of j.periodics)
          (insert_all (keys j.postsubmits) (insert_all (keys j.presubmits) repos)))
        filenames

  unfoldable pub fork_branches :
      (changes : Bool) (repository target_dir : Text) (filenames : List Text)
      → List Text
      → Action Bool
  fork_branches changes repository target_dir filenames [] = pure changes
  fork_branches changes repository target_dir filenames (branch ∷ branches) = do
    result ← fork_jobs repository branch target_dir filenames
    fork_branches (changes || result) repository target_dir filenames branches

module _ {W E S : Type 0} (files : Files W E S) (remote : Interactor.Remote W E)
    (matches : Text → Bool) (gh : Interactor.GithubServer) where
  unfoldable pub fork_repository :
      (changes : Bool) (target_dir : Text) → List Text → Text → Action files Bool
  fork_repository changes target_dir filenames job_repo = do
    rep ← λ s. (map_err plain (Interactor.new_repository remote job_repo gh), s)
    branches ← wrap plain (observe (Interactor.get_matching_branches remote rep matches))
    forked ← fork_branches files changes rep.full_repo_name target_dir filenames branches
    gone ← remove_orphaned_jobs files rep.full_repo_name branches target_dir
    pure (forked || gone)

  unfoldable pub fork_repositories :
      (changes : Bool) (target_dir : Text) → List Text → List Text → Action files Bool
  fork_repositories changes target_dir filenames [] = pure changes
  fork_repositories changes target_dir filenames (job_repo ∷ job_repos) = do
    result ← fork_repository changes target_dir filenames job_repo
    fork_repositories result target_dir filenames job_repos

  unfoldable pub generate_forked_configurations :
      (job_directory output_directory : Text) (recursive : Bool) → Action files Bool
  generate_forked_configurations job_directory output_directory recursive = do
    filenames ←
        wrap plain (observe (files.list_files job_directory (output_directory ∷ []) recursive))
    job_repos ← get_repos_from_job_files files [] filenames
    fork_repositories false (join_path job_directory output_directory) filenames job_repos
