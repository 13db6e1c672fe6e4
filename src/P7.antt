-- ===== src/P7.antt =====
-- p7/: the older coroutine library; its spinlocks and its namespace.
mod Threads
pub mod Spin
pub mod RwSpin
pub mod DoubleQueue
pub mod Runtime
pub mod Namespace
