-- ===== src/Mm/MemorySet/Spaces.antt =====
-- os/src/mm/memory_set.rs: the address spaces of the kernel, of a new program, and of a forked process.

use nimloth_os.Prelude.{
  ℕ, zero, suc, ◌+◌, ◌-◌, ◌%◌, ◌^◌, Bool, true, false, Option, none, some, List, [], ◌∷◌, length,
  take, drop, ◌==◌, leb, if◌then◌else◌, Outcome, done, assert, unwrap, ◌>>=◌, ◌>>◌,
}
use nimloth_os.Mm.Address.{page_size, virt_addr_from, usize_from_virt_addr, addr_from_page_num}
use nimloth_os.Mm.FrameAllocator.{StackFrameAllocator}
use nimloth_os.Mm.Pte.{ppn_of}
use nimloth_os.Mm.PageTable.{PageTable, Frames, translate}
use nimloth_os.Mm.MemorySet.{
  identical, framed, MapArea, MemorySet, Bytes, perm_r, perm_w, perm_x, perm_u, area_new,
  from_another, new_bare, push, map_trampoline, trampoline, trap_context, pages,
}

-- The symbols of the linker and the ranges of memory-mapped registers.
pub record Linked : Type 0 where
  pub stext : ℕ
  pub etext : ℕ
  pub srodata : ℕ
  pub erodata : ℕ
  pub sdata : ℕ
  pub edata : ℕ
  pub sbss_with_stack : ℕ
  pub ebss : ℕ
  pub ekernel : ℕ
  pub strampoline : ℕ
  pub memory_end : ℕ
  pub mmio : List (ℕ × ℕ)

-- An area of identical pages from an address to an address.
unfoldable pub push_identical : MemorySet → Bytes → ℕ → ℕ → ℕ → Outcome (MemorySet × Bytes)
unfolding area_new push virt_addr_from
push_identical s bytes start end perm =
    area_new (virt_addr_from start) (virt_addr_from end) identical perm >>= λ area.
    push s bytes area none

unfoldable pub push_mmio : MemorySet → Bytes → List (ℕ × ℕ) → Outcome (MemorySet × Bytes)
unfolding push_identical
push_mmio s bytes [] = done (s, bytes)
push_mmio s bytes ((start, size) ∷ rest) = do
  (s, bytes) ← push_identical s bytes start ((start + size) % 2 ^ 64) (perm_r + perm_w)
  push_mmio s bytes rest

unfoldable pub new_kernel :
    Linked → Frames → StackFrameAllocator → Bytes → Outcome (MemorySet × Bytes)
unfolding new_bare map_trampoline push_identical push_mmio
new_kernel k mem allocator bytes = do
  s ← new_bare mem allocator
  s ← map_trampoline k.strampoline s
  (s, bytes) ← push_identical s bytes k.stext k.etext (perm_r + perm_x)
  (s, bytes) ← push_identical s bytes k.srodata k.erodata perm_r
  (s, bytes) ← push_identical s bytes k.sdata k.edata (perm_r + perm_w)
  (s, bytes) ← push_identical s bytes k.sbss_with_stack k.ebss (perm_r + perm_w)
  (s, bytes) ← push_identical s bytes k.ekernel k.memory_end (perm_r + perm_w)
  push_mmio s bytes k.mmio

-- What the crate `xmas_elf` tells of a file: its magic number, its program headers, its entry point.
pub record ProgramHeader : Type 0 where
  pub load : Bool
  pub virtual_addr : ℕ
  pub mem_size : ℕ
  pub offset : ℕ
  pub file_size : ℕ
  pub is_read : Bool
  pub is_write : Bool
  pub is_execute : Bool

pub record ElfFile : Type 0 where
  pub magic_valid : Bool
  pub headers : List ProgramHeader
  pub entry_point : ℕ

abbrev pub bit : Bool → ℕ → ℕ
bit c perm = if c then perm else 0

abbrev pub header_perm : ProgramHeader → ℕ
header_perm ph = perm_u + bit ph.is_read perm_r + bit ph.is_write perm_w + bit ph.is_execute perm_x

-- A slice of the file, which panics out of range.
abbrev pub file_slice : List ℕ → ℕ → ℕ → Outcome (List ℕ)
file_slice input from to =
    assert (leb from to)
    >> assert (leb to (length input))
    >> done (take (to - from) (drop from input))

-- The loop over the program headers, with the end of the last area that it made.
unfoldable pub load_segments :
    MemorySet → Bytes → List ℕ → ℕ → List ProgramHeader → Outcome (MemorySet × Bytes × ℕ)
unfolding area_new push virt_addr_from
load_segments s bytes input end_vpn [] = done (s, bytes, end_vpn)
load_segments s bytes input end_vpn (ph ∷ rest) = elim ph.load [
  | false ↦ load_segments s bytes input end_vpn rest
  | true ↦ do
    area ←
        area_new (virt_addr_from ph.virtual_addr)
          (virt_addr_from ((ph.virtual_addr + ph.mem_size) % 2 ^ 64)) framed (header_perm ph)
    content ← file_slice input ph.offset ((ph.offset + ph.file_size) % 2 ^ 64)
    (s, bytes) ← push s bytes area (some content)
    load_segments s bytes input area.vpn_range.r rest
]

-- An area of frames from an address to an address, without contents.
unfoldable pub push_framed : MemorySet → Bytes → ℕ → ℕ → ℕ → Outcome (MemorySet × Bytes)
unfolding area_new push virt_addr_from
push_framed s bytes start end perm =
    area_new (virt_addr_from start) (virt_addr_from end) framed perm >>= λ area.
    push s bytes area none

-- `parse` is `ElfFile::new`. The answer has the top of the user stack and the entry point.
unfoldable pub from_elf :
    (List ℕ → Option ElfFile)
    → ℕ
    → List ℕ
    → Frames
    → StackFrameAllocator
    → Bytes
    → Outcome (MemorySet × Bytes × ℕ × ℕ)
unfolding new_bare map_trampoline load_segments push_framed usize_from_virt_addr addr_from_page_num
from_elf parse strampoline elf_data mem allocator bytes = do
  s ← new_bare mem allocator
  s ← map_trampoline strampoline s
  elf ← unwrap (parse elf_data)
  assert elf.magic_valid
  (s, bytes, end_vpn) ← load_segments s bytes elf_data 0 elf.headers
  let bottom = (usize_from_virt_addr (addr_from_page_num end_vpn) + page_size) % 2 ^ 64
  let top = (bottom + 8192) % 2 ^ 64
  (s, bytes) ← push_framed s bytes bottom top (perm_r + perm_w + perm_u)
  (s, bytes) ← push_framed s bytes top top (perm_r + perm_w + perm_u)
  (s, bytes) ← push_framed s bytes trap_context trampoline (perm_r + perm_w)
  done (s, bytes, top, elf.entry_point)

-- The bytes of a whole frame.
abbrev pub copy_frame : Bytes → ℕ → ℕ → Bytes
copy_frame bytes dst src p k = if p == dst then bytes src k else bytes p k

-- The loop over the pages of an area: the frame of each page is copied from one space to the other.
unfoldable pub copy_pages : PageTable → PageTable → ℕ → ℕ → Bytes → Outcome Bytes
unfolding translate
copy_pages from to vpn zero bytes = done bytes
copy_pages from to vpn (suc k) bytes = unwrap (translate from vpn) >>= λ src.
    unwrap (translate to vpn) >>= λ dst.
    copy_pages from to (suc vpn) k (copy_frame bytes (ppn_of dst) (ppn_of src))

-- The loop over the areas of the space that is copied. Both spaces live in the same memory and share
-- the allocator, so the page table of the old one is read in the memory as it is by then.
unfoldable pub copy_areas :
    PageTable → List MapArea → MemorySet → Bytes → Outcome (MemorySet × Bytes)
unfolding from_another push copy_pages
copy_areas user [] s bytes = done (s, bytes)
copy_areas user (area ∷ areas) s bytes = do
  new_area ← from_another area
  (s, bytes) ← push s bytes new_area none
  bytes ←
      copy_pages (record user { mem = s.page_table.mem }) s.page_table area.vpn_range.l
        (pages area.vpn_range) bytes
  copy_areas user areas s bytes

unfoldable pub from_existed_user : ℕ → MemorySet → Bytes → Outcome (MemorySet × Bytes)
unfolding new_bare map_trampoline copy_areas
from_existed_user strampoline user bytes = do
  s ← new_bare user.page_table.mem user.page_table.allocator
  s ← map_trampoline strampoline s
  copy_areas user.page_table user.areas s bytes
