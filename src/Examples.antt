-- ===== src/Examples.antt =====
-- The theorems at concrete processes, peers, configurations and histories.
pub mod World
mod Times
mod Rounds
mod Directives
mod Pages
mod Io
mod Election
mod Reload
mod Documents
mod Requests
mod Lifecycle
