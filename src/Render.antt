-- ===== src/Render.antt =====
-- src/render.rs: how one frame is drawn into its cell of the output.
pub mod Sampling
pub mod Placement
pub mod Paste
pub mod Bilinear
pub mod Cache
pub mod Premultiplied
pub mod Compose
