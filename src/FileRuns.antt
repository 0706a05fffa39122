-- ===== src/FileRuns.antt =====
-- termroom/file_runs.py and the file runs of termroom/db.py: running the current file of a Workspace.
pub mod Runner
pub mod Table
pub mod Store
pub mod Transition
pub mod Steps
pub mod Act
pub mod Manager
pub mod Start
pub mod Traced
pub mod Calls
pub mod Returns
pub mod Examples
