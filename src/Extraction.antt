-- ===== src/Extraction.antt =====
-- The memory extractor (internal/memory/extractor).
pub mod Message
pub mod Chunk
pub mod Filter
pub mod Gate
pub mod Pass
pub mod Queue
