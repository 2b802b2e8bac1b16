-- ===== src/Control.antt =====
-- internal/control: the control socket, from a request to its answer, and the command line.
pub mod Validate
pub mod Serve
pub mod Command
