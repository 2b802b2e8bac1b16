-- ===== src/App.antt =====
-- internal/app/app.go: the session that the local screen and the control socket share.
pub mod State
pub mod Perform
pub mod Session
