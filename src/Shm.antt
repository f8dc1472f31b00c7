-- ===== src/Shm.antt =====
-- The shared-memory transport between the app and the camera extension
-- (src/shared_memory_transport/): slot ownership, the mapped layout, validation of what the other
-- process wrote, and the writer's and the reader's use of the region.
pub mod Slot
pub mod Ownership
pub mod Mapping
pub mod Validation
pub mod Channel
