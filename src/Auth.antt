-- ===== src/Auth.antt =====
-- libs/features/auth.
pub mod RefreshTokens
pub mod Users
pub mod Sessions
pub mod Credentials
pub mod Service
pub mod Lifecycle
pub mod Passwords
pub mod Oidc
pub mod Tokens
