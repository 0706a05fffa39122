-- ===== src/RunSources.antt =====
-- termroom/run_sources.py: what may be named as a Source of a run.
pub mod Path
pub mod Symlink
pub mod GitUrl
pub mod Remote
pub mod Clone
pub mod Workspace
pub mod Exclude
mod Examples
