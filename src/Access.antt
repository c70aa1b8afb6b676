-- ===== src/Access.antt =====
-- Which endpoints a user may call (internal/mcp/classify.go, internal/store/access.go,
-- internal/server/http.go).
pub mod Classify
pub mod Tiers
