-- ===== src/Spool.antt =====
-- src/frame_transport.rs: frames handed over in a file.
pub mod Bytes
pub mod Codec
pub mod Sink
