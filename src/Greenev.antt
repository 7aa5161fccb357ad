-- ===== src/Greenev.antt =====
-- greenev: an application with an I/O thread, a Python thread and a main libev loop (greenev/).
pub mod Cmd
pub mod Logging
pub mod CmdQEv
pub mod CmdQCv
pub mod IoBuffer
pub mod IoThread
pub mod App
pub mod PyApi
pub mod System
pub mod Program
pub mod Main
