-- ===== src/Github.antt =====
-- The parts of GitHub's objects that the commands read; the types are prow's (sigs.k8s.io/prow/pkg/github).
use ci_infra_gardener.Prelude.{ℕ, Bool, Text, codes}

pub record Repo : Type 0 where
  pub owner : Text
  pub name : Text
  pub full_name : Text

pub record PullRequest : Type 0 where
  pub number : ℕ
  pub state : Text
  pub head_ref : Text
  pub head_repo : Repo
  pub base_ref : Text
  pub base_repo : Repo
  pub html_url : Text

pub record FullRepo : Type 0 where
  pub repo : Repo
  pub default_branch : Text
  pub fork : Bool
  pub parent : Repo

pub record BotUser : Type 0 where
  pub login : Text
  pub name : Text
  pub email : Text

-- github.PullRequestStateOpen, and the state of open milestones
abbrev pub open_state : Text
open_state = codes "open"
