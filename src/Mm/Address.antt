-- ===== src/Mm/Address.antt =====
-- os/src/mm/address.rs: addresses and page numbers of Sv39, and ranges of page numbers. The four
-- one-field structs are plain numbers; `& ((1 << w) - 1)` is written `% 2 ^ w`.
pub mod Pages
pub mod Canonical
pub mod Ranges
use nimloth_os.Prelude.{
  ℕ, zero, suc, ◌+◌, ◌-◌, ◌*◌, ◌/◌, ◌%◌, ◌^◌, Bool, Option, none, some, List, [], ◌∷◌, ◌==◌, leb,
  if◌then◌else◌, Outcome, done, panic, assert, ◌>>=◌, ◌>>◌,
}

abbrev pub PhysAddr : Type 0
PhysAddr = ℕ

abbrev pub VirtAddr : Type 0
VirtAddr = ℕ

abbrev pub PhysPageNum : Type 0
PhysPageNum = ℕ

abbrev pub VirtPageNum : Type 0
VirtPageNum = ℕ

abbrev pub page_size : ℕ
page_size = 0x1000

abbrev pub page_size_bits : ℕ
page_size_bits = 0xc

abbrev pub pa_width_sv39 : ℕ
pa_width_sv39 = 56

abbrev pub va_width_sv39 : ℕ
va_width_sv39 = 39

abbrev pub ppn_width_sv39 : ℕ
ppn_width_sv39 = pa_width_sv39 - page_size_bits

abbrev pub vpn_width_sv39 : ℕ
vpn_width_sv39 = va_width_sv39 - page_size_bits

-- The conversions `From<usize>`.
unfoldable pub phys_addr_from : ℕ → PhysAddr
phys_addr_from value = value % 2 ^ pa_width_sv39

unfoldable pub virt_addr_from : ℕ → VirtAddr
virt_addr_from value = value % 2 ^ va_width_sv39

unfoldable pub phys_page_num_from : ℕ → PhysPageNum
phys_page_num_from value = value % 2 ^ ppn_width_sv39

unfoldable pub virt_page_num_from : ℕ → VirtPageNum
virt_page_num_from value = value % 2 ^ vpn_width_sv39

-- `floor`, `ceil`, `page_offset` and `aligned` are the same code for both kinds of address. The sum
-- in `ceil` wraps as a `usize`.
unfoldable pub floor : ℕ → ℕ
floor addr = addr / page_size

unfoldable pub ceil : ℕ → ℕ
ceil addr = if addr == 0 then 0 else (addr - 1 + page_size) % 2 ^ 64 / page_size

unfoldable pub page_offset : ℕ → ℕ
page_offset addr = addr % page_size

unfoldable pub aligned : ℕ → Bool
unfolding page_offset
aligned addr = page_offset addr == 0

-- `From<VirtAddr> for usize`: `x | !((1 << 39) - 1)` keeps the low 39 bits and sets all others.
unfoldable pub usize_from_virt_addr : VirtAddr → ℕ
usize_from_virt_addr value =
    if leb (2 ^ (va_width_sv39 - 1)) value
    then value % 2 ^ va_width_sv39 + (2 ^ 64 - 2 ^ va_width_sv39)
    else value

-- `From<PhysAddr> for PhysPageNum` and `From<VirtAddr> for VirtPageNum`.
unfoldable pub page_num_from_addr : ℕ → Outcome ℕ
unfolding page_offset floor
page_num_from_addr value = do assert (page_offset value == 0); done (floor value)

-- `From<PhysPageNum> for PhysAddr` and `From<VirtPageNum> for VirtAddr`: `<<` drops high bits.
unfoldable pub addr_from_page_num : ℕ → ℕ
addr_from_page_num value = value * 2 ^ page_size_bits % 2 ^ 64

-- `VirtPageNum::indexes`, the loop over `i = 2, 1, 0`.
unfoldable pub indexes_loop : ℕ → ℕ → List ℕ → List ℕ
indexes_loop zero vpn idx = idx
indexes_loop (suc i) vpn idx = indexes_loop i (vpn / 2 ^ 9) (vpn % 512 ∷ idx)

unfoldable pub indexes : VirtPageNum → List ℕ
unfolding indexes_loop
indexes vpn = indexes_loop 3 vpn []

-- `StepByOne::step`
abbrev pub step : ℕ → ℕ
step n = (n + 1) % 2 ^ 64

-- `SimpleRange` and its iterator.
pub record SimpleRange : Type 0 where
  pub l : ℕ
  pub r : ℕ

unfoldable pub range_new : ℕ → ℕ → Outcome SimpleRange
range_new start end = do assert (leb start end); done (record { l = start; r = end })

pub record SimpleRangeIterator : Type 0 where
  pub current : ℕ
  pub end : ℕ

unfoldable pub into_iter : SimpleRange → SimpleRangeIterator
into_iter s = record { current = s.l; end = s.r }

unfoldable pub next : SimpleRangeIterator → Option ℕ × SimpleRangeIterator
next it =
    if it.current == it.end
    then (none, it)
    else (some it.current, record it { current = step it.current })

abbrev pub cons_to : ℕ → Option (List ℕ) → Option (List ℕ)
cons_to t none = none
cons_to t (some ts) = some (t ∷ ts)

-- A `for` loop over the iterator: the items that it visits, `none` if the fuel runs out first.
unfoldable pub collect : ℕ → SimpleRangeIterator → Option (List ℕ)
unfolding next
collect zero it = none
collect (suc fuel) it =
    let rest = collect fuel (next it).1 in
    elim (next it).0 [ none ↦ some [] | some t ↦ cons_to t rest ]
