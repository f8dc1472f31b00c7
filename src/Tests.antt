-- ===== src/Tests.antt =====
-- The theorems at work on concrete inputs, and the inputs.
mod Samples
mod Media
mod Frame
mod Shm
mod Stream
mod Spool
mod Picture
mod Compose
mod Capture
mod Extension
mod Worker
mod Pipeline
