-- ===== src/Rounds.antt =====
-- The rounds of one peer, run by any number of processes in any order.
pub mod Defs
pub mod Invariant
pub mod Fencing
