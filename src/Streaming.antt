-- ===== src/Streaming.antt =====
-- Remux Videos as VOD HLS on the fly (internal/streaming): segment boundaries from keyframes, the
-- manifest and the names of its segments, and the cache.
pub mod Segments
pub mod Names
pub mod Decimal
pub mod Probe
pub mod Generator
pub mod Manifest
pub mod Cache
