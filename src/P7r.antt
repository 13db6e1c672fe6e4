-- ===== src/P7r.antt =====
-- p7r/: the lightweight thread library; its stacks, hints, message buffers and scheduler.
pub mod StackPage
pub mod StackAllocator
pub mod StackHint
pub mod HintDictionary
pub mod Scheduler
pub mod Delegation
pub mod Futures
pub mod Carriers
