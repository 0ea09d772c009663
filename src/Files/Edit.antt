-- ===== src/Files/Edit.antt =====
-- Exact and close edits, internal/files/edit.go.
pub mod Replace
pub mod Parts
pub mod Fuzzy
pub mod Apply
pub mod Exact
