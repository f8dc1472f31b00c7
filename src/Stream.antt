-- ===== src/Stream.antt =====
-- The stream runtime and what the program keeps on each source's history.
pub mod Pacer
pub mod Lifecycle
pub mod Integrity
