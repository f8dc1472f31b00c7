-- ===== src/Media.antt =====
-- The media contract: what a frame's pixels mean, how a source is placed, and which stream formats
-- the virtual camera advertises (src/media_contract.rs, src/source_transform.rs,
-- src/format_negotiation.rs, src/wire.rs, src/config.rs).
pub mod Formats
pub mod Colorimetry
pub mod Contract
pub mod Coordinates
pub mod Transform
pub mod Negotiation
