-- ===== src/Policy.antt =====
-- internal/policy/policy.go
pub mod Rules
pub mod Match
pub mod Engine
pub mod History
pub mod Permits
pub mod Failures
pub mod Project
pub mod Runtime
