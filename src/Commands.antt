-- ===== src/Commands.antt =====
-- Commands that write files past the managed file service, internal/policy/commands.
pub mod Syntax
pub mod Tee
pub mod Detect
pub mod Reasons
pub mod Writes
