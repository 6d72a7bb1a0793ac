-- ===== src/Mm/Pte/Fields.antt =====
-- The fields of an entry.
use nimloth_os.Prelude.{ℕ, ◌+◌, ◌*◌, ◌/◌, ◌%◌, ◌^◌, ◌<◌, ◌≡◌, refl, true, false, ◌==◌, arith}
use nimloth_os.Mm.Pte.{
  new, empty, ppn_of, flags_of, is_valid, readable, writable, executable, with_v,
}

-- An entry made of a 44-bit frame number and flags gives both back, and its tests read the flags; the
-- empty entry is not valid, and adding V to flags changes no other flag.
pub entry_fields :
    (ppn flags : ℕ)
    → ppn < 2 ^ 44
    → flags < 2 ^ 8
    → (ppn_of (new ppn flags) ≡ ppn)
      × (flags_of (new ppn flags) ≡ flags)
      × (is_valid (new ppn flags) ≡ (flags % 2 == 1))
      × (readable (new ppn flags) ≡ (flags / 2 % 2 == 1))
      × (writable (new ppn flags) ≡ (flags / 2 ^ 2 % 2 == 1))
      × (executable (new ppn flags) ≡ (flags / 2 ^ 3 % 2 == 1))
      × (is_valid empty ≡ false)
      × (is_valid (new ppn (with_v flags)) ≡ true)
      × (with_v flags / 2 ≡ flags / 2)
unfolding new ppn_of flags_of is_valid readable writable executable with_v
entry_fields ppn flags hp hf =
    let same : (ppn * 2 ^ 10 % 2 ^ 64 + flags) % 2 ^ 8 ≡ flags = omega arith in
    (
      omega arith,
      same,
      rw same refl,
      rw same refl,
      rw same refl,
      rw same refl,
      refl,
      ground arith,
      omega arith,
    )

pub new-ppn : (ppn : ℕ) → ppn < 2 ^ 44 → ppn_of (new ppn 1) ≡ ppn
unfolding new ppn_of
new-ppn ppn h = omega arith

pub new-is_valid : (ppn : ℕ) → is_valid (new ppn 1) ≡ true
unfolding new is_valid
new-is_valid ppn = ground arith
