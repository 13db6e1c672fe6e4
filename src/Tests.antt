-- ===== src/Tests.antt =====
-- Runs of the models on concrete inputs.
mod Rings
mod Tables
mod Dictionaries
mod Stacks
mod Hints
mod Locks
mod Versions
mod Managers
mod Names
mod Caches
mod Runtimes
mod Lifetimes
mod DoubleQueues
mod Reactors
mod Schedulers
mod Spins
mod Arenas
mod HintDictionaries
mod Carriers
