-- ===== src/Archive.antt =====
-- Durable delivery of archive payloads (internal/middleware/archive_dispatcher.go over
-- internal/store/archive_queue.go).
pub mod Crypto
pub mod Queue
pub mod Breaker
pub mod Dispatcher
