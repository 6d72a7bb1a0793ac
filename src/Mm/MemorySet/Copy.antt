-- ===== src/Mm/MemorySet/Copy.antt =====
-- The copy of pages from one address space into another.
use nimloth_os.Prelude.{
  ℕ, zero, suc, ◌+◌, ◌<◌, ◌≡◌, ◌≢◌, refl, sym, ◌∙◌, inl, inr, Bool-cases, ==_eq, ==_refl, some,
  arith, ◌==◌, done,
}
use nimloth_os.Mm.Pte
use nimloth_os.Mm.Pte.{ppn_of}
use nimloth_os.Mm.PageTable.{PageTable, translate}
use nimloth_os.Mm.MemorySet.{Bytes}
use nimloth_os.Mm.MemorySet.Spaces.{copy_frame, copy_pages}

-- Two page tables that translate `k` pages from `vpn` on to frames, those of the second all different
-- and none of them a frame of the first.
pub record TwoSpaces (from to : PageTable) (vpn k : ℕ) (src dst : ℕ → ℕ) : Type 0 where
  pub old : (j : ℕ) → j < k → translate from (vpn + j) ≡ some (src j)
  pub new : (j : ℕ) → j < k → translate to (vpn + j) ≡ some (dst j)
  pub distinct : (i j : ℕ) → i < k → j < k → ppn_of (dst i) ≡ ppn_of (dst j) → i ≡ j
  pub apart : (i j : ℕ) → i < k → j < k → ppn_of (src i) ≢ ppn_of (dst j)

later :
    {from to : PageTable} {vpn k : ℕ} {src dst : ℕ → ℕ}
    → TwoSpaces from to vpn (suc k) src dst
    → TwoSpaces from to (suc vpn) k (λ j. src (suc j)) (λ j. dst (suc j))
later {from} {to} {vpn} {k} {src} {dst} s = record {
  old = λ j h.
      let e : vpn + suc j ≡ suc vpn + j = omega arith in rw e at (s.old (suc j) (omega (arith, h)));
  new = λ j h.
      let e : vpn + suc j ≡ suc vpn + j = omega arith in rw e at (s.new (suc j) (omega (arith, h)));
  distinct = λ i j h h' e.
      suc_injective (s.distinct (suc i) (suc j) (omega (arith, h)) (omega (arith, h')) e);
  apart = λ i j h h'. s.apart (suc i) (suc j) (omega (arith, h)) (omega (arith, h'));
}
  where
    suc_injective : {i j : ℕ} → suc i ≡ suc j → i ≡ j
    suc_injective e = omega (arith, e)

-- The loop over pages that both spaces translate: afterwards the frame of each page of the
-- new space has the bytes that the frame of that page of the old space had before, and all frames but
-- those of the new space are as they were, the ones of the old space among them.
pub copy_pages_lem :
    (from to : PageTable) (vpn k : ℕ) (src dst : ℕ → ℕ) (bytes : Bytes)
    → TwoSpaces from to vpn k src dst
    → (bytes' : Bytes) × (copy_pages from to vpn k bytes ≡ done bytes')
      × ((j o : ℕ) → j < k → bytes' (ppn_of (dst j)) o ≡ bytes (ppn_of (src j)) o)
      × ((p o : ℕ) → ((j : ℕ) → j < k → ppn_of (dst j) ≢ p) → bytes' p o ≡ bytes p o)
unfolding copy_pages
copy_pages_lem from to vpn zero src dst bytes s =
    (bytes, refl, λ j o h. absurd (omega (arith, h)), λ p o f. refl)
copy_pages_lem from to vpn (suc k) src dst bytes s =
    let z : vpn + 0 ≡ vpn = omega arith in
    let a = rw z at (s.old 0 (omega arith)) in
    let b = rw z at (s.new 0 (omega arith)) in
    let bytes1 = copy_frame bytes (ppn_of (dst 0)) (ppn_of (src 0)) in
    let (bytes', r, copied, others) =
      copy_pages_lem from to (suc vpn) k (λ j. src (suc j)) (λ j. dst (suc j)) bytes1 (later s) in
    (
      bytes',
      rw (a, b) r,
      each bytes' copied others,
      λ p o f. others p o (λ j h. f (suc j) (omega (arith, h))) ∙ untouched p o (f 0 (omega arith)),
    )
  where
    untouched :
        (p o : ℕ)
        → ppn_of (dst 0) ≢ p
        → copy_frame bytes (ppn_of (dst 0)) (ppn_of (src 0)) p o ≡ bytes p o
    untouched p o f = elim (Bool-cases (p == ppn_of (dst 0))) [
      | inl e ↦ absurd (f (sym (==_eq p (ppn_of (dst 0)) e)))
      | inr e ↦ rw e refl
    ]

    each :
        (bytes' : Bytes)
        → ((j o : ℕ)
            → j < k
            → bytes' (ppn_of (dst (suc j))) o
              ≡ copy_frame bytes (ppn_of (dst 0)) (ppn_of (src 0)) (ppn_of (src (suc j))) o)
        → ((p o : ℕ)
            → ((j : ℕ) → j < k → ppn_of (dst (suc j)) ≢ p)
            → bytes' p o ≡ copy_frame bytes (ppn_of (dst 0)) (ppn_of (src 0)) p o)
        → (j o : ℕ) → j < suc k
        → bytes' (ppn_of (dst j)) o ≡ bytes (ppn_of (src j)) o
    each bytes' copied others zero o h =
        let first : copy_frame bytes (ppn_of (dst 0)) (ppn_of (src 0)) (ppn_of (dst 0)) o
            ≡ bytes (ppn_of (src 0)) o =
          rw (==_refl (ppn_of (dst 0))) refl in
        others (ppn_of (dst 0)) o
          (λ j l e. not_zero (s.distinct (suc j) 0 (omega (arith, l)) (omega arith) e))
        ∙ first
      where
        not_zero : {j : ℕ} → suc j ≡ 0 → ⊥
        not_zero e = omega (arith, e)
    each bytes' copied others (suc j) o h =
        copied j o (omega (arith, h))
        ∙ untouched (ppn_of (src (suc j))) o (λ e. s.apart (suc j) 0 h (omega arith) (sym e))
