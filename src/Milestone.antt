-- ===== src/Milestone.antt =====
-- The milestone activator, prow/cmd/milestone-activator/activator.go: sections of configuration files
-- are commented in or out, as an open milestone is found or not.
pub mod Lines
pub mod Sections
pub mod Choosing
pub mod Scanning
pub mod Files
mod Examples
