-- ===== src/Files.antt =====
-- The file services of internal/files: the parts that a text goes through, and the patches on it.
pub mod Fallible
pub mod Lines
pub mod Types
pub mod System
pub mod Secrets
pub mod Tokens
pub mod Service
pub mod Write
pub mod Read
pub mod Delete
pub mod Edit
pub mod Patch
