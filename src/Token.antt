-- ===== src/Token.antt =====
-- Token authentication: registry/auth/token/token.go, accesscontroller.go, util.go.
pub mod Access
pub mod Time
pub mod Verify
pub mod Trust
pub mod Controller
