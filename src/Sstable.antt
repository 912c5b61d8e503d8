-- ===== src/Sstable.antt =====
-- internal/sstable: the table files.
pub mod Errors
pub mod Trailer
pub mod Block
pub mod Index
pub mod Footer
pub mod Reader
pub mod Iterator
pub mod Writer
mod Tests
