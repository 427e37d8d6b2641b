-- ===== src/OrgConfig.antt =====
-- The Peribolos configuration of organizations (sigs.k8s.io/prow/pkg/config/org), as far as the owners
-- aliases bumper and the configuration check read it. A Go map is a list of its entries.
use ci_infra_gardener.Prelude.{Bool, Option, List, Text}

pub data Privacy : Type 0 where
  closed secret : Privacy

-- A team has members, maintainers, previous names, a privacy if one is set, and its children by name.
mutual
  pub data Team : Type 0 where
    team : (members maintainers previously : List Text) → Option Privacy → Teams → Team

  pub data Teams : Type 0 where
    no_teams : Teams
    add_team : (name : Text) → Team → Teams → Teams

pub record RepoConfig : Type 0 where
  pub archived : Option Bool
  pub previously : List Text

pub record OrgConfig : Type 0 where
  pub admins : List Text
  pub members : List Text
  pub teams : Teams
  pub repos : List (Text × RepoConfig)
