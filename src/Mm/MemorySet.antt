-- ===== src/Mm/MemorySet.antt =====
-- os/src/mm/memory_set.rs: areas of pages, and address spaces as a page table with a list of areas.
pub mod Spaces
pub mod Granting
pub mod Mapped
pub mod Areas
pub mod Copy
pub mod Recycle
use nimloth_os.Prelude.{
  ℕ, zero, suc, ◌+◌, ◌-◌, ◌*◌, ◌/◌, ◌%◌, ◌^◌, min, Bool, true, false, Option, none, some, List, [],
  ◌∷◌, ◌++◌, length, take, drop, get_or, ◌==◌, ◌&&◌, leb, ltb, if◌then◌else◌, Outcome, done, panic,
  assert, unwrap, ◌>>=◌, ◌>>◌,
}
use nimloth_os.Mm.Address.{
  SimpleRange, range_new, step, floor, ceil, page_size, virt_addr_from, phys_addr_from,
  page_num_from_addr,
}
use nimloth_os.Mm.FrameAllocator.{StackFrameAllocator, dealloc}
use nimloth_os.Mm.Pte.{PageTableEntry, ppn_of}
use nimloth_os.Mm.PageTable.{PageTable, Frames, frame_alloc, map, unmap, translate}
use nimloth_os.Mm.PageTable

pub data MapType : Type 0 where
  identical framed : MapType

-- The bits of `MapPermission`.
abbrev pub perm_r : ℕ
perm_r = 2

abbrev pub perm_w : ℕ
perm_w = 4

abbrev pub perm_x : ℕ
perm_x = 8

abbrev pub perm_u : ℕ
perm_u = 16

-- `data_frames` maps a page to the frame of its tracker.
pub record MapArea : Type 0 where
  pub vpn_range : SimpleRange
  pub data_frames : List (ℕ × ℕ)
  pub map_type : MapType
  pub map_perm : ℕ

-- The areas in the order of the vector.
pub record MemorySet : Type 0 where
  pub page_table : PageTable
  pub areas : List MapArea

-- `BTreeMap::insert`: the tracker that was there, if any, is given back.
unfoldable pub insert_frame : List (ℕ × ℕ) → ℕ → ℕ → List (ℕ × ℕ) × Option ℕ
insert_frame [] vpn ppn = ((vpn, ppn) ∷ [], none)
insert_frame ((v, p) ∷ rest) vpn ppn =
    let (others, old) = insert_frame rest vpn ppn in
    if v == vpn then ((vpn, ppn) ∷ rest, some p) else ((v, p) ∷ others, old)

-- `BTreeMap::remove`.
unfoldable pub remove_frame : List (ℕ × ℕ) → ℕ → Option (ℕ × List (ℕ × ℕ))
remove_frame [] vpn = none
remove_frame ((v, p) ∷ rest) vpn =
    let found = remove_frame rest vpn in
    if v == vpn
    then some (p, rest)
    else elim found [ none ↦ none | some (q, others) ↦ some (q, (v, p) ∷ others) ]

-- The drop of a `FrameTracker`.
abbrev pub drop_frame : PageTable → ℕ → Outcome PageTable
drop_frame t ppn = dealloc t.allocator ppn >>= λ a. done (record t { allocator = a })

abbrev pub drop_old : PageTable → Option ℕ → Outcome PageTable
drop_old t none = done t
drop_old t (some ppn) = drop_frame t ppn

unfoldable pub area_new : ℕ → ℕ → MapType → ℕ → Outcome MapArea
unfolding floor ceil range_new
area_new start_va end_va map_type map_perm = range_new (floor start_va) (ceil end_va) >>= λ r.
    done (record { vpn_range = r; data_frames = []; map_type = map_type; map_perm = map_perm })

-- The frame that a page gets, and the area that holds it.
unfoldable pub give_frame : MapArea → PageTable → ℕ → Outcome (MapArea × PageTable × ℕ)
unfolding frame_alloc insert_frame
give_frame area t vpn = elim area.map_type [
  | identical ↦ done (area, t, vpn)
  | framed ↦ do
    (ppn, mem, allocator) ← unwrap (frame_alloc t.mem t.allocator)
    let inserted = insert_frame area.data_frames vpn ppn
    t' ← drop_old (record t { mem = mem; allocator = allocator }) (inserted.1)
    done (record area { data_frames = inserted.0 }, t', ppn)
]

-- `PTEFlags::from_bits` accepts every byte.
unfoldable pub map_one : MapArea → PageTable → ℕ → Outcome (MapArea × PageTable)
unfolding give_frame map
map_one area t vpn = do
  (area, t, ppn) ← give_frame area t vpn
  t ← map t vpn ppn area.map_perm
  done (area, t)

unfoldable pub take_frame : MapArea → PageTable → ℕ → Outcome (MapArea × PageTable)
unfolding remove_frame dealloc
take_frame area t vpn = elim area.map_type [
  | identical ↦ done (area, t)
  | framed ↦ do
    (ppn, rest) ← unwrap (remove_frame area.data_frames vpn)
    t ← drop_frame t ppn
    done (record area { data_frames = rest }, t)
]

unfoldable pub unmap_one : MapArea → PageTable → ℕ → Outcome (MapArea × PageTable)
unfolding take_frame unmap
unmap_one area t vpn = do (area, t) ← take_frame area t vpn; t ← unmap t vpn; done (area, t)

-- The loops over so many pages from one on.
unfoldable pub map_pages : MapArea → PageTable → ℕ → ℕ → Outcome (MapArea × PageTable)
unfolding map_one
map_pages area t vpn zero = done (area, t)
map_pages area t vpn (suc k) = do (area, t) ← map_one area t vpn; map_pages area t (suc vpn) k

unfoldable pub unmap_pages : MapArea → PageTable → ℕ → ℕ → Outcome (MapArea × PageTable)
unfolding unmap_one
unmap_pages area t vpn zero = done (area, t)
unmap_pages area t vpn (suc k) = do (area, t) ← unmap_one area t vpn; unmap_pages area t (suc vpn) k

abbrev pub pages : SimpleRange → ℕ
pages r = r.r - r.l

unfoldable pub map_area : MapArea → PageTable → Outcome (MapArea × PageTable)
unfolding map_pages
map_area area t = map_pages area t area.vpn_range.l (pages area.vpn_range)

unfoldable pub unmap_area : MapArea → PageTable → Outcome (MapArea × PageTable)
unfolding unmap_pages
unmap_area area t = unmap_pages area t area.vpn_range.l (pages area.vpn_range)

unfoldable pub shrink_to : MapArea → PageTable → ℕ → Outcome (MapArea × PageTable)
unfolding range_new unmap_pages
shrink_to area t new_end = do
  gone ← range_new new_end area.vpn_range.r
  (area, t) ← unmap_pages area t gone.l (pages gone)
  kept ← range_new area.vpn_range.l new_end
  done (record area { vpn_range = kept }, t)

unfoldable pub append_to : MapArea → PageTable → ℕ → Outcome (MapArea × PageTable)
unfolding range_new map_pages
append_to area t new_end = do
  more ← range_new area.vpn_range.r new_end
  (area, t) ← map_pages area t more.l (pages more)
  whole ← range_new area.vpn_range.l new_end
  done (record area { vpn_range = whole }, t)

-- The bytes of the frames.
abbrev pub Bytes : Type 0
Bytes = ℕ → ℕ → ℕ

abbrev pub store_slice : Bytes → ℕ → List ℕ → Bytes
store_slice bytes ppn src p k =
    if (p == ppn) && ltb k (length src) then get_or src k 0 else bytes p k

-- The loop of `copy_data`, in at most so many rounds.
unfoldable pub copy_loop : ℕ → PageTable → Bytes → ℕ → List ℕ → Outcome Bytes
unfolding translate
copy_loop zero t bytes vpn rest = panic
copy_loop (suc rounds) t bytes vpn rest = unwrap (translate t vpn) >>= λ pte.
    let bytes' = store_slice bytes (ppn_of pte) (take page_size rest) in
    if leb (length rest) page_size
    then done bytes'
    else copy_loop rounds t bytes' (step vpn) (drop page_size rest)

unfoldable pub copy_data : MapArea → PageTable → Bytes → List ℕ → Outcome Bytes
unfolding copy_loop
copy_data area t bytes src = elim area.map_type [
  | identical ↦ panic
  | framed ↦ copy_loop (suc (length src)) t bytes area.vpn_range.l src
]

unfoldable pub from_another : MapArea → Outcome MapArea
unfolding range_new
from_another another = range_new another.vpn_range.l another.vpn_range.r >>= λ r. done (record {
  vpn_range = r;
  data_frames = [];
  map_type = another.map_type;
  map_perm = another.map_perm;
})

unfoldable pub new_bare : Frames → StackFrameAllocator → Outcome MemorySet
unfolding PageTable.new
new_bare mem allocator =
    PageTable.new mem allocator >>= λ t. done (record { page_table = t; areas = [] })

-- `FrameTracker::new` zeroes the frame of each page.
unfoldable pub zero_frames : List (ℕ × ℕ) → Bytes → Bytes
zero_frames [] bytes p k = bytes p k
zero_frames ((v, ppn) ∷ rest) bytes p k = if p == ppn then 0 else zero_frames rest bytes p k

unfoldable pub push : MemorySet → Bytes → MapArea → Option (List ℕ) → Outcome (MemorySet × Bytes)
unfolding map_area zero_frames copy_data
push s bytes area content = do
  (area, t) ← map_area area s.page_table
  let bytes = zero_frames area.data_frames bytes
  bytes ← elim content [ none ↦ done bytes | some src ↦ copy_data area t bytes src ]
  done (record { page_table = t; areas = s.areas ++ (area ∷ []) }, bytes)

unfoldable pub insert_framed_area : MemorySet → Bytes → ℕ → ℕ → ℕ → Outcome (MemorySet × Bytes)
unfolding area_new push
insert_framed_area s bytes start_va end_va perm =
    area_new start_va end_va framed perm >>= λ area. push s bytes area none

abbrev pub trampoline : ℕ
trampoline = 2 ^ 64 - 4096

abbrev pub trap_context : ℕ
trap_context = 2 ^ 64 - 8192

-- `strampoline` is a symbol of the linker.
unfoldable pub map_trampoline : ℕ → MemorySet → Outcome MemorySet
unfolding virt_addr_from page_num_from_addr phys_addr_from map
map_trampoline strampoline s = do
  vpn ← page_num_from_addr (virt_addr_from trampoline)
  ppn ← page_num_from_addr (phys_addr_from strampoline)
  t ← map s.page_table vpn ppn (perm_r + perm_x)
  done (record s { page_table = t })

-- `remove_area_with_start_vpn`: the first area that starts there is unmapped and removed, and what is
-- left of its trackers is given back.
unfoldable pub drop_frames : List (ℕ × ℕ) → PageTable → Outcome PageTable
unfolding dealloc
drop_frames [] t = done t
drop_frames ((v, p) ∷ rest) t = drop_frame t p >>= λ t. drop_frames rest t

unfoldable pub remove_area : List MapArea → PageTable → ℕ → Outcome (List MapArea × PageTable)
unfolding unmap_area drop_frames
remove_area [] t start_vpn = done ([], t)
remove_area (area ∷ areas) t start_vpn = elim (area.vpn_range.l == start_vpn) [
  | true ↦ do (gone, t) ← unmap_area area t; t ← drop_frames gone.data_frames t; done (areas, t)
  | false ↦ do (others, t) ← remove_area areas t start_vpn; done (area ∷ others, t)
]

unfoldable pub remove_area_with_start_vpn : MemorySet → ℕ → Outcome MemorySet
unfolding remove_area
remove_area_with_start_vpn s start_vpn = remove_area s.areas s.page_table start_vpn >>= λ r.
    done (record { page_table = r.1; areas = r.0 })

-- `areas.clear()`.
unfoldable pub drop_areas : List MapArea → PageTable → Outcome PageTable
unfolding drop_frames
drop_areas [] t = done t
drop_areas (area ∷ areas) t = drop_frames area.data_frames t >>= λ t. drop_areas areas t

unfoldable pub recycle_data_pages : MemorySet → Outcome MemorySet
unfolding drop_areas
recycle_data_pages s =
    drop_areas s.areas s.page_table >>= λ t. done (record { page_table = t; areas = [] })
