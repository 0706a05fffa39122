-- ===== src/NodeCore.antt =====
-- termroom/node_core.py: the connection of a Node and its streams.
pub mod Json
pub mod Stream
pub mod Connection
pub mod Dispatch
mod Examples
