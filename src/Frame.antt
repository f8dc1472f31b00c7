-- ===== src/Frame.antt =====
-- Validated pixel storage (src/frame.rs): the memory policy, owned frames and borrowed views.
pub mod Limits
pub mod Buffer
pub mod View
