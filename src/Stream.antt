-- ===== src/Stream.antt =====
-- The playback stream of src/lib.rs: options, read-ahead buffer, state and worker.
pub mod Options
pub mod Buffer
pub mod Seek
pub mod State
pub mod Worker
