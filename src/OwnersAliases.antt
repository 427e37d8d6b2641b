-- ===== src/OwnersAliases.antt =====
-- prow/cmd/owners-aliases-bumper: the aliases in repositories' OWNERS_ALIASES files are brought in line
-- with the teams of the Peribolos configuration.
pub mod Aliases
pub mod Changes
pub mod Writing
pub mod PullRequests
pub mod Options
mod Examples
