-- ===== src/Access.antt =====
-- Who may come in: termroom/auth.py, and the pairing limit of termroom/node_core.py.
pub mod RateLimit
pub mod Session
pub mod Examples
