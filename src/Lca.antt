-- ===== src/Lca.antt =====
-- The package lca: the manager that finds and requests service instances, and the allocator that
-- starts them.
pub mod Wire
pub mod Address
pub mod Config
pub mod Manager
pub mod Membership
pub mod Machine
pub mod Allocator
pub mod Cull
pub mod Fleet
pub mod Service
pub mod Start
pub mod Tests
