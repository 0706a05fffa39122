-- ===== src/TerminalControl.antt =====
-- termroom/terminal_control.py: which browser types into a terminal, and which one sizes its grid.
-- Every method takes the whole state and returns the new one; `self._lock` makes each method one
-- step. What `uuid.uuid4` returns is an argument. Rows and columns are only compared.
pub mod State
pub mod Input
pub mod Resize
pub mod Leave
pub mod Presence
pub mod History
pub mod Control
pub mod Plan
pub mod Bootstrap
mod Examples
