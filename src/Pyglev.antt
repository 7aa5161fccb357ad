-- ===== src/Pyglev.antt =====
-- pyglev: the Python 3 module around a libev event loop (pyglev/pyglev/core).
pub mod CmdQ
pub mod Errors
pub mod EstSocket
pub mod ListenCmd
pub mod EventLoop
pub mod Core
