-- ===== src/Pht.antt =====
-- The hash table component, pht/src.
pub mod Text
pub mod Chain
pub mod Base
pub mod Threads
pub mod Tester
pub mod V1
pub mod V2
mod Tests
