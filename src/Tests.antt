-- ===== src/Tests.antt =====
-- Concrete inputs for the theorems about the agent's C code (src/c).
pub mod Samples
pub mod Agents
pub mod Benchmarks
pub mod Lifecycles
pub mod Recordings
pub mod Events
pub mod Threads
pub mod Barriers
