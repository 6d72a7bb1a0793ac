-- ===== src/Mm/FrameAllocator.antt =====
-- os/src/mm/frame_allocator.rs: the stack allocator of physical frames. The vector `recycled` is a
-- list with its last element first, so that `push` and `pop` work at the head.
pub mod Ownership
pub mod Foreign
pub mod Schedules
use nimloth_os.Prelude.{
  ℕ, ◌+◌, ◌-◌, ◌%◌, ◌^◌, Bool, true, false, ◌||◌, Option, none, some, List, [], ◌∷◌, ◌==◌, leb,
  if◌then◌else◌, contains, Outcome, done, panic,
}
use nimloth_os.Mm.Address.{PhysPageNum, PhysAddr, phys_page_num_from, phys_addr_from, ceil, floor}

pub record StackFrameAllocator : Type 0 where
  pub current : ℕ
  pub end : ℕ
  pub recycled : List ℕ

abbrev pub new : StackFrameAllocator
new = record { current = 0; end = 0; recycled = [] }

unfoldable pub init : StackFrameAllocator → PhysPageNum → PhysPageNum → StackFrameAllocator
init a l r = record a { current = l; end = r }

-- `current += 1` and `current - 1` as a `usize`.
alloc_fresh : StackFrameAllocator → Option PhysPageNum × StackFrameAllocator
unfolding phys_page_num_from
alloc_fresh a =
    if a.current == a.end
    then (none, a)
    else let current' = (a.current + 1) % 2 ^ 64 in
      (
        some (phys_page_num_from ((current' + (2 ^ 64 - 1)) % 2 ^ 64)),
        record a { current = current' },
      )

unfoldable pub alloc : StackFrameAllocator → Option PhysPageNum × StackFrameAllocator
unfolding alloc_fresh phys_page_num_from
alloc a = elim a.recycled [
  | [] ↦ alloc_fresh a
  | ppn ∷ rest ↦ (some (phys_page_num_from ppn), record a { recycled = rest })
]

unfoldable pub dealloc : StackFrameAllocator → PhysPageNum → Outcome StackFrameAllocator
dealloc a ppn =
    if leb a.current ppn || contains a.recycled ppn
    then panic
    else done (record a { recycled = ppn ∷ a.recycled })

-- `init_frame_allocator`, for the linker's symbol `ekernel` and the constant `MEMORY_END`.
unfoldable pub init_frame_allocator : ℕ → ℕ → StackFrameAllocator
unfolding init ceil floor phys_addr_from
init_frame_allocator ekernel memory_end =
    init new (ceil (phys_addr_from ekernel)) (floor (phys_addr_from memory_end))
