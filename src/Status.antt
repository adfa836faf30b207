-- ===== src/Status.antt =====
-- The status page: a snapshot of the peers, the writer of its text, and the formats of the text.
pub mod Writer
pub mod Snapshot
pub mod Formats
pub mod Request
pub mod Page
