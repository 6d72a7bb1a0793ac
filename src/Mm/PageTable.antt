-- ===== src/Mm/PageTable.antt =====
-- os/src/mm/page_table.rs: page tables as trees of frames in physical memory.
pub mod Tree
pub mod Create
pub mod Walk
pub mod Entries
pub mod Mapping
pub mod Fresh
use nimloth_os.Prelude.{
  ℕ, ◌+◌, ◌*◌, ◌%◌, ◌^◌, Bool, not, Option, none, some, List, [], ◌∷◌, ◌==◌, ◌&&◌, if◌then◌else◌,
  Outcome, done, panic, assert, unwrap, ◌>>=◌, ◌>>◌,
}
use nimloth_os.Mm.Address.{
  PhysPageNum, VirtPageNum, PhysAddr, VirtAddr, indexes, floor, page_offset, addr_from_page_num,
  phys_addr_from, phys_page_num_from,
}
use nimloth_os.Mm.FrameAllocator.{StackFrameAllocator, alloc}
use nimloth_os.Mm.Pte
use nimloth_os.Mm.Pte.{PageTableEntry, ppn_of, is_valid, flag_v, with_v}

-- What a frame holds as a table of 512 entries: `PhysPageNum::pte_array`.
abbrev pub Frames : Type 0
Frames = ℕ → ℕ → PageTableEntry

abbrev pub put : Frames → ℕ → ℕ → PageTableEntry → Frames
put mem ppn idx pte p i = if (p == ppn) && (i == idx) then pte else mem p i

abbrev pub zeroed : Frames → ℕ → Frames
zeroed mem ppn p i = if p == ppn then 0 else mem p i

-- A `PageTable`, with the physical memory and the allocator that its methods use. `frames` has its
-- last element first.
pub record PageTable : Type 0 where
  pub root_ppn : PhysPageNum
  pub frames : List PhysPageNum
  pub mem : Frames
  pub allocator : StackFrameAllocator

-- `frame_alloc`, which zeroes the frame.
unfoldable pub frame_alloc :
    Frames → StackFrameAllocator → Option (PhysPageNum × Frames × StackFrameAllocator)
frame_alloc mem allocator =
    let (found, allocator') = alloc allocator in
    elim found [ none ↦ none | some ppn ↦ some (ppn, zeroed mem ppn, allocator') ]

unfoldable pub new : Frames → StackFrameAllocator → Outcome PageTable
unfolding frame_alloc
new mem allocator = do
  (ppn, mem', allocator') ← unwrap (frame_alloc mem allocator)
  done (record { root_ppn = ppn; frames = ppn ∷ []; mem = mem'; allocator = allocator' })

-- One level of `find_pte_create`: the next table, created where there is none.
unfoldable pub create_level : PageTable → ℕ → ℕ → Outcome (PageTable × ℕ)
unfolding frame_alloc
create_level t ppn idx = if is_valid (t.mem ppn idx) then done (t, ppn_of (t.mem ppn idx)) else do
  (frame, mem, allocator) ← unwrap (frame_alloc t.mem t.allocator)
  done (
    record t {
      mem = put mem ppn idx (Pte.new frame flag_v);
      allocator = allocator;
      frames = frame ∷ t.frames;
    },
    ppn_of (Pte.new frame flag_v),
  )

-- The loop of `find_pte_create` over the indexes: the place of the last entry, as a frame and an index.
unfoldable pub walk_create : PageTable → ℕ → List ℕ → Outcome (PageTable × Option (ℕ × ℕ))
unfolding create_level
walk_create t ppn [] = done (t, none)
walk_create t ppn (idx ∷ []) = done (t, some (ppn, idx))
walk_create t ppn (idx ∷ next ∷ idxs) = do
  (t', ppn') ← create_level t ppn idx
  walk_create t' ppn' (next ∷ idxs)

unfoldable pub find_pte_create : PageTable → VirtPageNum → Outcome (PageTable × Option (ℕ × ℕ))
unfolding walk_create
find_pte_create t vpn = walk_create t t.root_ppn (indexes vpn)

-- The loop of `find_pte`.
unfoldable pub walk : Frames → ℕ → List ℕ → Option (ℕ × ℕ)
walk mem ppn [] = none
walk mem ppn (idx ∷ []) = some (ppn, idx)
walk mem ppn (idx ∷ next ∷ idxs) =
    let rest = walk mem (ppn_of (mem ppn idx)) (next ∷ idxs) in
    if is_valid (mem ppn idx) then rest else none

unfoldable pub find_pte : PageTable → VirtPageNum → Option (ℕ × ℕ)
unfolding walk
find_pte t vpn = walk t.mem t.root_ppn (indexes vpn)

abbrev pub write_pte : PageTable → ℕ × ℕ → PageTableEntry → PageTable
write_pte t (ppn, idx) pte = record t { mem = put t.mem ppn idx pte }

abbrev pub read_pte : PageTable → ℕ × ℕ → PageTableEntry
read_pte t (ppn, idx) = t.mem ppn idx

unfoldable pub map : PageTable → VirtPageNum → PhysPageNum → ℕ → Outcome PageTable
unfolding find_pte_create
map t vpn ppn flags = do
  (t', found) ← find_pte_create t vpn
  pte ← unwrap found
  assert (not (is_valid (read_pte t' pte)))
  done (write_pte t' pte (Pte.new ppn (with_v flags)))

unfoldable pub unmap : PageTable → VirtPageNum → Outcome PageTable
unfolding find_pte
unmap t vpn = do
  pte ← unwrap (find_pte t vpn)
  assert (is_valid (read_pte t pte))
  done (write_pte t pte Pte.empty)

unfoldable pub translate : PageTable → VirtPageNum → Option PageTableEntry
unfolding find_pte
translate t vpn = elim (find_pte t vpn) [ none ↦ none | some pte ↦ some (read_pte t pte) ]

-- The sum of a page's address and an offset does not wrap.
unfoldable pub translate_va : PageTable → VirtAddr → Option PhysAddr
unfolding find_pte
translate_va t va = elim (find_pte t (floor va)) [
  | none ↦ none
  | some pte ↦ some (phys_addr_from (addr_from_page_num (ppn_of (read_pte t pte)) + page_offset va))
]

-- `8 << 60 | root_ppn`, for a frame number of 44 bits.
unfoldable pub token : PageTable → ℕ
token t = 8 * 2 ^ 60 + t.root_ppn

unfoldable pub from_token : Frames → StackFrameAllocator → ℕ → PageTable
from_token mem allocator satp = record {
  root_ppn = phys_page_num_from (satp % 2 ^ 44);
  frames = [];
  mem = mem;
  allocator = allocator;
}
