-- ===== src/Manifest.antt =====
-- internal/manifest: the version edits of the manifest file and the set of table files.
pub mod Edit
pub mod Version
pub mod Current
pub mod Writer
mod Tests
