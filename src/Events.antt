-- ===== src/Events.antt =====
-- src/c/events.c and the data types of src/c/ubench.h.
pub mod Types
pub mod Getters
pub mod Papi
pub mod Table
pub mod Resolution
pub mod Differences
pub mod Exact
pub mod Listing
pub mod Supported
pub mod Ending
