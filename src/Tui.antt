-- ===== src/Tui.antt =====
-- internal/tui: the state of the screen and what keys do to it; the drawing is not modelled.
mod Examples
pub mod Viewport
pub mod Columns
pub mod Help
pub mod Panel
pub mod Dialog
pub mod Update
pub mod Model
pub mod Keys
pub mod Follow
