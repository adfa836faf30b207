-- ===== src/Protocol.antt =====
-- protocol/: the I/O of a round, up to the result that it hands to the schedule.
pub mod Ready
pub mod Udp
pub mod Tcp
pub mod Deadline
pub mod Cleanup
pub mod Start
pub mod Round
