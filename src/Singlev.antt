-- ===== src/Singlev.antt =====
-- singlev: one application around a libev loop and a Python interpreter, with one command queue.
pub mod Logging
pub mod CmdQ
pub mod RunModule
pub mod App
pub mod Api
pub mod Main
