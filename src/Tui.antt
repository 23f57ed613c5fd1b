-- ===== src/Tui.antt =====
-- crates/tui/src: the terminal client, without the drawing and the HTTP calls.
pub mod Dto
pub mod Format
pub mod Event
pub mod App
pub mod Update
pub mod Run
pub mod Invariant
pub mod Help
