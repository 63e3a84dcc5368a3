-- ===== src/Json.antt =====
-- src/snapshot_json.cpp and src/snapshot_session.cpp: the writer, what it writes of a snapshot, and
-- the lines of a session.
pub mod Writer
pub mod Escape
pub mod Document
pub mod Sections
pub mod Snapshot
pub mod Parts
pub mod Contents
pub mod Refinement
pub mod Session
