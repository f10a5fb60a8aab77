-- ===== src/Auth.antt =====
-- The authentication use cases of apps/tcc/usecase/usecases/auth and what they act on.
pub mod Accounts
pub mod Users
pub mod Passwords
pub mod Login
pub mod Recovery
pub mod Session
pub mod Tokens
pub mod Requests
mod Tests
