-- ===== src/Schedule.antt =====
-- runtime/ngx_healthcheck_schedule.c: registration, ownership, rounds and results.
pub mod Owned
pub mod Register
pub mod Submit
pub mod Claim
pub mod Finish
pub mod Preferred
pub mod Stop
pub mod Begin
pub mod Start
pub mod Watch
