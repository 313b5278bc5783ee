-- ===== src/Stream/Demux.antt =====
-- A stream with metadata in it: the thread, which reads pieces of any length, does what a reader
-- does that takes one byte at a time.
pub mod Reader
pub mod Meta
pub mod Stays
pub mod Round
pub mod Run
