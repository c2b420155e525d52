-- ===== src/Vms.antt =====
-- The virtual memory component, vms/src.
pub mod Pte
pub mod Memory
pub mod Machine
pub mod Pages
pub mod PageTable
pub mod Fault
pub mod Mmu
pub mod Fork
mod Tests
