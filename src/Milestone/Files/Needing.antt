-- ===== src/Milestone/Files/Needing.antt =====
-- A run of the milestone activator, prow/cmd/milestone-activator/activator.go, pushes only what it has
-- written.
use ci_infra_gardener.Prelude.{[], Trace}
use ci_infra_gardener.Interactor
use ci_infra_gardener.Milestone.Files.{Files, Call}

module _ {W E : Type 0} (files : Files W E) (remote : Interactor.Remote W E) where
  abbrev pub start : W → Trace W Call
  start world = record { world = world; calls = [] }
