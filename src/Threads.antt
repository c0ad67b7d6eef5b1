-- ===== src/Threads.antt =====
-- src/c/threads.c: the map from Java threads to native threads.
pub mod Map
pub mod Lookup
pub mod Registry
pub mod Removal
pub mod Init
pub mod Locking
pub mod Natives
pub mod Table
pub mod Refinement
pub mod Roundtrip
pub mod Progress
pub mod Linear
