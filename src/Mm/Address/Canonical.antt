-- ===== src/Mm/Address/Canonical.antt =====
-- Virtual addresses as `usize` values: the sign extension of Sv39.
use nimloth_os.Prelude.{ℕ, ◌-◌, ◌^◌, ◌≤◌, ◌<◌, ◌≡◌, ◌↔◌, ◌⊎◌, arith}
use nimloth_os.Mm.Address.{virt_addr_from, usize_from_virt_addr}

abbrev pub IsCanonical : ℕ → Type 0
IsCanonical x = (x < 2 ^ 38) ⊎ (2 ^ 64 - 2 ^ 38 ≤ x)

-- Every 39-bit virtual address goes to a canonical `usize` and comes back from it.
pub virt_addr-usize :
    (va : ℕ)
    → va < 2 ^ 39
    → (virt_addr_from (usize_from_virt_addr va) ≡ va) × IsCanonical (usize_from_virt_addr va)
unfolding virt_addr_from usize_from_virt_addr
virt_addr-usize va h = ground arith

-- A `usize` survives the way through `VirtAddr` exactly when it is canonical.
pub usize-virt_addr :
    (x : ℕ) → x < 2 ^ 64 → (usize_from_virt_addr (virt_addr_from x) ≡ x) ↔ IsCanonical x
unfolding virt_addr_from usize_from_virt_addr
usize-virt_addr x h = (λ e. ground arith, λ c. ground arith)
