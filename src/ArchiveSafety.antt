-- ===== src/ArchiveSafety.antt =====
-- termroom/archive_safety.py: a ZIP is checked as a whole before anything of it is written.
pub mod Path
pub mod Extra
pub mod Entry
pub mod Conflict
pub mod Structure
pub mod Manifest
pub mod Inflate
pub mod Materialize
mod Examples
