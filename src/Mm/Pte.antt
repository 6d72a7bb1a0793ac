-- ===== src/Mm/Pte.antt =====
-- os/src/mm/page_table.rs: the entries of a page table, as 64-bit patterns. A mask of low bits is a
-- remainder, and the flags are a byte whose bits are V, R, W, X, U, G, A, D from the lowest on.
pub mod Fields
use nimloth_os.Prelude.{ℕ, ◌+◌, ◌-◌, ◌*◌, ◌/◌, ◌%◌, ◌^◌, Bool, ◌==◌}
use nimloth_os.Mm.Address.{PhysPageNum, phys_page_num_from}

abbrev pub PageTableEntry : Type 0
PageTableEntry = ℕ

abbrev pub flag_v : ℕ
flag_v = 1

-- `ppn << 10 | flags`: the low ten bits of the first are 0, and the flags fit in eight.
unfoldable pub new : PhysPageNum → ℕ → PageTableEntry
new ppn flags = ppn * 2 ^ 10 % 2 ^ 64 + flags

abbrev pub empty : PageTableEntry
empty = 0

unfoldable pub ppn_of : PageTableEntry → PhysPageNum
unfolding phys_page_num_from
ppn_of bits = phys_page_num_from (bits / 2 ^ 10 % 2 ^ 44)

unfoldable pub flags_of : PageTableEntry → ℕ
flags_of bits = bits % 2 ^ 8

unfoldable pub is_valid : PageTableEntry → Bool
unfolding flags_of
is_valid bits = flags_of bits % 2 == 1

unfoldable pub readable : PageTableEntry → Bool
unfolding flags_of
readable bits = flags_of bits / 2 % 2 == 1

unfoldable pub writable : PageTableEntry → Bool
unfolding flags_of
writable bits = flags_of bits / 2 ^ 2 % 2 == 1

unfoldable pub executable : PageTableEntry → Bool
unfolding flags_of
executable bits = flags_of bits / 2 ^ 3 % 2 == 1

-- `flags | PTEFlags::V`
unfoldable pub with_v : ℕ → ℕ
with_v flags = flags + 1 - flags % 2
