-- ===== src/Mm.antt =====
-- os/src/mm: addresses, the frame allocator, page-table entries and page tables.
pub mod Address
pub mod FrameAllocator
pub mod Pte
pub mod PageTable
pub mod UserMemory
pub mod MemorySet
