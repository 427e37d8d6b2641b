-- ===== src/Lib.antt =====
-- The commands that run beside prow in this repository, and what makes them correct.
--
-- Each command reads a repository or GitHub, decides, and changes files, branches or pull requests. Its
-- model is a module of the same name: the decisions are functions, and the rest of the command is a
-- state-passing function over a trace, which holds the outside world, of any type, and the calls made so
-- far, the latest first. A Go error is the result `err`, a return in the middle of a function ends its
-- do block, and a run-time panic is an error or a `none` of its own. GitHub's client, git, the file
-- system, regular expressions, semver and the YAML libraries are parameters: fields of the interfaces
-- `Remote`, `Files`, `PrClient` and `Workspace`, of which nothing is assumed but what a theorem names.
--
-- Prelude: lists and tests over the native numbers, Go's `strings` on texts (lists of bytes), errors
--   and effects, and sets and maps as lists.
-- Github, OrgConfig: the objects of GitHub and of the Peribolos configuration that are read.
-- Milestone: prow/cmd/milestone-activator/activator.go. Lines has handleActivateLine and
--   handleDeactivateLine, Sections has findSectionsInFile and the loop of handleMilestoneSection,
--   Scanning what is read and written, Choosing has getOpenMilestone's loop, and Files the functions
--   that touch files up to runMilestoneActivator, which ends in Interactor's push.
-- Interactor: prow/pkg/githubinteractor/github.go, with PushChanges in Pushing, GetFileNames in Listing,
--   and CommitClient with CloneRepo in Committing.
-- BranchCleaner: prow/cmd/branch-cleaner/branchcleaner.go, with the order of branches in Ordering.
-- ReleaseHandler: prow/cmd/release-handler/releasehandler.go.
-- PeribolosCheck: prow/cmd/peribolos-checkconfig/main.go, checkOrg, with walkTeams in Teams and
--   validateRepos in Repos.
-- JobForker: prow/cmd/job-forker/forking.go, with the functions that touch files in Forking, and which files
--   are removed in Removing.
-- OwnersAliases: prow/cmd/owners-aliases-bumper, with a child module for aliases.go (Aliases), the
--   comparison and change of changes.go (Changes), its file and the loop of main.go (Writing),
--   findOrCreatePR of github.go (PullRequests), and options.go with peribolos.go (Options).
-- ImageBuilder: prow/cmd/image-builder. Options has main.go's Validate, Pods the functions of
--   buildcontroller.go that define the pods, and Controller the reconciler: its state, Running its
--   methods up to Reconcile, Reaching the requests that it serves one after the other. Its interfaces
--   are `Sources` and `Cluster`.
-- Cherrypicker: prow/external-plugins/cherrypicker/server.go. Commands has the pattern of the commands and
--   parseComment, Texts the titles, names and release notes, Picking handle, its steps in Steps, and
--   Requests what leads
--   to it, with who asked for it in Asking: handleIssueComment, and handlePullRequest in Merged. Its interfaces are `Host` and
--   `Directory`. A request is handled from its start to its end before the next one.
--
-- All loops run over lists, so there is no fuel. Go's maps are lists of entries in some order. Numbers
-- are unbounded but for strconv.Atoi, whose result is clamped as in Go. A scanner of lines stops at one of
-- 65536 bytes, as bufio.Scanner does. Upper and lower case, and white space, are those of ASCII.
--
-- Not modelled: log messages, error texts, option parsing and the set-up of clients in the main
-- functions; the registration of the image builder's controller; the locks and goroutines of
-- the cherrypicker and the decoding of its events; tests and their fakes; configuration data.
pub mod Prelude
pub mod Github
pub mod OrgConfig
pub mod Milestone
pub mod Interactor
pub mod BranchCleaner
pub mod ReleaseHandler
pub mod PeribolosCheck
pub mod JobForker
pub mod OwnersAliases
pub mod ImageBuilder
pub mod Cherrypicker
