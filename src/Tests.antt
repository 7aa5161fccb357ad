-- ===== src/Tests.antt =====
-- Runs of the theorems at concrete inputs.
pub mod PyglevQueue
pub mod PyglevSockets
pub mod PyglevLoop
pub mod PyglevLife
pub mod GreenevQueues
pub mod GreenevIo
pub mod GreenevProgram
pub mod GreenevThreads
pub mod SinglevParts
pub mod LogLines
pub mod GreenevSystem
