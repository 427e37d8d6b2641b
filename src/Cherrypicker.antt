-- ===== src/Cherrypicker.antt =====
-- The cherrypicker, prow/external-plugins/cherrypicker/server.go: a server that is told of comments and pull
-- requests, and opens a pull request that applies a merged one to another branch.
pub mod Commands
pub mod Texts
pub mod Picking
pub mod Requests
mod Examples
