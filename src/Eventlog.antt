-- ===== src/Eventlog.antt =====
-- src/eventlog/: what is read off the append-only log.
pub mod Conformance
