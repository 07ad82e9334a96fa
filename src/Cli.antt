-- ===== src/Cli.antt =====
-- firmware/lcbringup/main/LatentRedCLISessionContext.cpp and .h: the command line of the switch.
pub mod Grammar
pub mod System
pub mod Config
pub mod Show
pub mod Dispatch
pub mod Store
pub mod Checked
pub mod Addresses
pub mod Persist
pub mod ReadOnly
pub mod Buffers
pub mod Status
pub mod Accepted
mod Examples
mod FlashExamples
pub mod Spec
pub mod Saved
pub mod Refines
pub mod Sessions
pub mod Stale
pub mod Shared
pub mod Commit
