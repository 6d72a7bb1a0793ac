-- ===== src/Mm/Address/Pages.antt =====
-- Rounding of addresses to pages, and the three indexes of a page number.
use nimloth_os.Prelude.{ℕ, ◌+◌, ◌*◌, ◌^◌, ◌≤◌, ◌<◌, ◌≡◌, ◌↔◌, true, List, [], ◌∷◌, arith, done}
use nimloth_os.Mm.Address.{
  page_size, floor, ceil, aligned, page_num_from_addr, addr_from_page_num, indexes,
}

-- For every address below 2^64 - 4096, `floor` and `ceil` are the greatest page that starts at or
-- below it and the least page that starts at or above it; they are equal exactly for an aligned
-- address, and otherwise are neighbours.
pub floor-ceil :
    (addr : ℕ)
    → addr + page_size < 2 ^ 64
    → (floor addr * page_size ≤ addr)
      × (addr < (floor addr + 1) * page_size)
      × (addr ≤ ceil addr * page_size)
      × (ceil addr * page_size < addr + page_size)
      × ((floor addr ≡ ceil addr) ↔ (aligned addr ≡ true))
      × (ceil addr ≤ floor addr + 1)
unfolding floor ceil aligned
floor-ceil addr h = ground arith

-- A page number that fits an address comes back from its first address, which is accepted by the
-- assertion of the conversion.
pub page_num-addr :
    (ppn : ℕ) → ppn < 2 ^ 52 → page_num_from_addr (addr_from_page_num ppn) ≡ done ppn
unfolding page_num_from_addr addr_from_page_num
page_num-addr ppn h = ground arith

-- The number that three page-table indexes stand for.
abbrev pub vpn_of : List ℕ → ℕ
vpn_of (a ∷ b ∷ c ∷ []) = (a * 512 + b) * 512 + c
vpn_of _ = 0

abbrev pub AllBelow512 : List ℕ → Type 0
AllBelow512 [] = Unit
AllBelow512 (a ∷ l) = (a < 512) × AllBelow512 l

-- `indexes` splits every 27-bit virtual page number into three indexes below 512, the most
-- significant first, from which the number can be put together again.
pub vpn_of-indexes :
    (vpn : ℕ) → vpn < 2 ^ 27 → (vpn_of (indexes vpn) ≡ vpn) × AllBelow512 (indexes vpn)
unfolding indexes
vpn_of-indexes vpn h = omega arith

-- Two 27-bit page numbers with the same indexes are equal.
pub indexes-injective : (v w : ℕ) → v < 2 ^ 27 → w < 2 ^ 27 → indexes v ≡ indexes w → v ≡ w
indexes-injective v w hv hw e = cc (e, (vpn_of-indexes v hv).0, (vpn_of-indexes w hw).0)
