-- ===== src/OwnersAliases/Writing.antt =====
-- The changes of one repository: writeChanges of prow/cmd/owners-aliases-bumper/changes.go, checkoutRepo and
-- commitAndPush of its github.go, and the body of the loop over repositories in its main.go.
use ci_infra_gardener.Prelude.{
  ◌≡◌, refl, inl, inr, Bool, true, false, not, List, [], ◌∷◌, arith, Text, codes, if◌then◌else◌,
  Exec, Trace, Result, ok, err, map_err, pure, observe, perform, wrap, attempt, embed, ◌>>=◌, ◌>>◌,
  Result-cases,
}
use ci_infra_gardener.OwnersAliases.Aliases.{OrgAliases, FullOrgAliases}
use ci_infra_gardener.OwnersAliases.Changes.{Change, calculate_alias_changes, apply_changes}
use ci_infra_gardener.OwnersAliases.PullRequests.{PrClient, PrCall, find_or_create_pr}
use ci_infra_gardener.OwnersAliases.Options.{PrConfig}

-- Git and the file system of the clone, and the YAML libraries: `merge original modified raw` is
-- ThreeWayMergeManifest, which keeps the layout of the raw file.
pub record Workspace (W E : Type 0) : Type 0 where
  pub client_for : (org repo : Text) → Exec W E (Unit {0})
  pub checkout : Text → Exec W E (Unit {0})
  pub checkout_new_branch : Text → Exec W E (Unit {0})
  pub commit : (title body : Text) → Exec W E (Unit {0})
  pub client_from_dir : (org repo : Text) → Exec W E (Unit {0})
  pub push_to_central : (branch : Text) (force : Bool) → Exec W E (Unit {0})
  pub clean : Exec W E (Unit {0})
  pub read_file : Text → Exec W E Text
  pub write_file : (path content : Text) → Exec W E (Unit {0})
  pub unmarshal : Text → Result E (List (Text × List Text))
  pub marshal : List (Text × List Text) → Result E Text
  pub merge : (original modified raw : Text) → Result E Text
  pub get_file : (org repo path : Text) → Exec W E Text
  pub parse_aliases_config : Text → Result E OrgAliases

pub data Call : Type 0 where
  cloned cleaned : Call
  checked_out checked_out_new : Text → Call
  wrote : (path content : Text) → Call
  committed : (title body : Text) → Call
  pushed : (branch : Text) → Call
  pull_request : PrCall → Call

pub data WriteError (E : Type 0) : Type 0 where
  plain reading parsing copying marshalling merging writing checking_out committing pushing :
      E → WriteError E

abbrev pub owners_aliases : Text
owners_aliases = codes "OWNERS_ALIASES"

module _ {W E : Type 0} (workspace : Workspace W E) where
  abbrev pub Action : Type 0 → Type 0
  Action A = Exec (Trace W Call) (WriteError E) A

  -- deepCopyYaml
  unfoldable pub deep_copy_yaml : Text → Result E Text
  deep_copy_yaml original = elim (workspace.unmarshal original) [
    | err e ↦ err e
    | ok parsed ↦ workspace.marshal parsed
  ]

  unfoldable pub write_changes : (aliases_path : Text) → List (Text × Change) → Action (Unit {0})
  write_changes aliases_path alias_changes = do
    raw ← wrap reading (observe (workspace.read_file aliases_path))
    aliases ← λ s. (map_err parsing (workspace.unmarshal raw), s)
    original ← λ s. (map_err copying (deep_copy_yaml raw), s)
    modified ←
        λ s. (map_err marshalling (workspace.marshal (apply_changes alias_changes aliases)), s)
    output ← λ s. (map_err merging (workspace.merge original modified raw), s)
    wrap writing (perform (wrote aliases_path output) (workspace.write_file aliases_path output))

  unfoldable pub commit_and_push : (org_name repo_name : Text) → PrConfig → Action (Unit {0})
  commit_and_push org_name repo_name cfg = do
    wrap committing (
        perform (committed cfg.commit_title cfg.commit_body)
          (workspace.commit cfg.commit_title cfg.commit_body))
    wrap plain (observe (workspace.client_from_dir org_name repo_name))
    wrap pushing (perform (pushed cfg.branch) (workspace.push_to_central cfg.branch true))

module _ {W E : Type 0} (workspace : Workspace W E) (client : PrClient W E) where
  unfoldable pub checkout_repo :
      (org_name repo_name : Text) → PrConfig → Action workspace (Unit {0})
  checkout_repo org_name repo_name cfg = do
    wrap plain (perform cloned (workspace.client_for org_name repo_name))
    default_branch ← wrap plain (observe (client.get_default_branch org_name repo_name))
    wrap checking_out (perform (checked_out default_branch) (workspace.checkout default_branch))
    wrap checking_out
        (perform (checked_out_new cfg.branch) (workspace.checkout_new_branch cfg.branch))

  -- One repository in apply mode, up to its pull request; main logs the error and goes on.
  unfoldable pub apply_to_repo :
      (org_name repo_name : Text) → PrConfig → List (Text × Change) → Action workspace (Unit {0})
  apply_to_repo org_name repo_name cfg changes = do
    checkout_repo org_name repo_name cfg
    write_changes workspace owners_aliases changes
    commit_and_push workspace org_name repo_name cfg
    wrap plain (embed pull_request (find_or_create_pr client org_name repo_name cfg))
    attempt {F = WriteError E} (perform {E = E} cleaned workspace.clean)
    pure tt

  unfoldable pub apply_if_changed :
      (apply : Bool) (org_name repo_name : Text)
      → PrConfig
      → List (Text × Change)
      → Action workspace (Unit {0})
  apply_if_changed apply org_name repo_name cfg [] = pure tt
  apply_if_changed apply org_name repo_name cfg (c ∷ changes) = if not apply then pure tt else do
    attempt {F = WriteError E} (apply_to_repo org_name repo_name cfg (c ∷ changes))
    pure tt

  -- The body of the loop over the repositories.
  unfoldable pub manage_repo :
      (apply : Bool)
      → FullOrgAliases
      → (org_name repo_name : Text) → PrConfig
      → Action workspace (Unit {0})
  manage_repo apply local_aliases org_name repo_name cfg = do
    raw ← attempt (observe (workspace.get_file org_name repo_name owners_aliases))
    let changes = calculate_alias_changes workspace.parse_aliases_config raw local_aliases org_name
    apply_if_changed apply org_name repo_name cfg changes

  quiet :
      (org_name repo_name : Text) (cfg : PrConfig) (changes : List (Text × Change))
      (s : Trace W Call)
      → ((apply_if_changed false org_name repo_name cfg changes s).0 ≡ ok tt)
        × ((apply_if_changed false org_name repo_name cfg changes s).1.calls ≡ s.calls)
  unfolding apply_if_changed
  quiet org_name repo_name cfg [] s = (refl, refl)
  quiet org_name repo_name cfg (c ∷ changes) s = (refl, refl)

  -- Without --confirm nothing is cloned, written, committed, pushed or opened for a repository.
  pub manage_repo_dry :
      (local_aliases : FullOrgAliases) (org_name repo_name : Text) (cfg : PrConfig)
      (s : Trace W Call)
      → ((manage_repo false local_aliases org_name repo_name cfg s).0 ≡ ok tt)
        × ((manage_repo false local_aliases org_name repo_name cfg s).1.calls ≡ s.calls)
  unfolding manage_repo
  manage_repo_dry local_aliases org_name repo_name cfg s =
      let f = workspace.get_file org_name repo_name owners_aliases s.world in
      quiet org_name repo_name cfg
        (calculate_alias_changes workspace.parse_aliases_config f.0 local_aliases org_name)
        (record { world = f.1; calls = s.calls })

module _ {W E : Type 0} (workspace : Workspace W E) where
  -- What writeChanges writes if it succeeds: the merge of the raw file, its aliases, and its aliases after
  -- the changes, in this order the third, first and second argument of the merge.
  pub record IsWritten (path : Text) (changes : List (Text × Change)) (s s' : Trace W Call)
      : Type 0 where
    pub raw : Text
    pub original : Text
    pub modified : Text
    pub output : Text
    pub aliases : List (Text × List Text)
    pub is_read : (workspace.read_file path s.world).0 ≡ ok raw
    pub is_parsed : workspace.unmarshal raw ≡ ok aliases
    pub is_copied : workspace.marshal aliases ≡ ok original
    pub is_modified : workspace.marshal (apply_changes changes aliases) ≡ ok modified
    pub is_merged : workspace.merge original modified raw ≡ ok output
    pub calls : s'.calls ≡ wrote path output ∷ s.calls

  -- If writeChanges succeeds, it has written one file, the one that it read: the merge of the file's text
  -- with its aliases as they were and as they are after the changes.
  pub write_changes_lem :
      (path : Text) (changes : List (Text × Change)) (s s' : Trace W Call)
      → write_changes workspace path changes s ≡ (ok tt, s')
      → IsWritten path changes s s'
  unfolding write_changes deep_copy_yaml
  write_changes_lem path changes s s' h =
      let r = workspace.read_file path s.world in
      elim (Result-cases r.0) [
        | inr (e, bad) ↦ ground (arith, bad)
        | inl (raw, is_read) ↦ elim (Result-cases (workspace.unmarshal raw)) [
          | inr (e, bad) ↦ ground (arith, is_read, bad)
          | inl (aliases, is_parsed) ↦ elim (Result-cases (workspace.marshal aliases)) [
            | inr (e, bad) ↦ ground (arith, is_read, is_parsed, bad)
            | inl (original, is_copied) ↦
                elim (Result-cases (workspace.marshal (apply_changes changes aliases))) [
                  | inr (e, bad) ↦ ground (arith, is_read, is_parsed, is_copied, bad)
                  | inl (modified, is_modified) ↦
                      elim (Result-cases (workspace.merge original modified raw)) [
                        | inr (e, bad) ↦
                            ground (arith, is_read, is_parsed, is_copied, is_modified, bad)
                        | inl (output, is_merged) ↦ record {
                          raw = raw;
                          original = original;
                          modified = modified;
                          output = output;
                          aliases = aliases;
                          is_read = is_read;
                          is_parsed = is_parsed;
                          is_copied = is_copied;
                          is_modified = is_modified;
                          is_merged = is_merged;
                          calls =
                              ground (arith, is_read, is_parsed, is_copied, is_modified, is_merged);
                        }
                      ]
                ]
          ]
        ]
      ]
