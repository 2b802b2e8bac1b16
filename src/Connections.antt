-- ===== src/Connections.antt =====
-- internal/connections: what a profile resolves to. The files and the environment of the process
-- are arguments.
pub mod Resolve
pub mod Add
pub mod Docker
