-- ===== src/Oauth.antt =====
-- The OAuth provider: internal/web/oauth_provider.go with the client and token stores.
pub mod Store
pub mod Handlers
pub mod Issue
pub mod Within
pub mod Grants
mod Tests
