-- ===== src/Measurement.antt =====
-- src/c/measurement.c: the event sets and the native methods of Measurement.
pub mod Rows
pub mod State
pub mod Recording
pub mod Stages
pub mod AddEvents
pub mod Create
pub mod Results
pub mod Arrays
pub mod Bounds
pub mod Session
pub mod Benchmark
pub mod Destroy
pub mod Attach
pub mod Init
pub mod Sound
pub mod Readable
pub mod Defined
pub mod Overflow
pub mod Blocks
pub mod Lifecycle
pub mod Search
pub mod Pairing
pub mod Loops
pub mod Invalid
pub mod Widths
pub mod Roundtrip
pub mod Sampling
