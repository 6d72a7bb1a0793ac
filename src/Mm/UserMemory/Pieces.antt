-- ===== src/Mm/UserMemory/Pieces.antt =====
-- The pieces are the user's bytes, in order.
use nimloth_os.Prelude.{
  ℕ, zero, suc, ◌+◌, ◌-◌, ◌*◌, ◌/◌, ◌%◌, ◌^◌, ◌≡◌, ◌≤◌, ◌<◌, refl, ap, sym, ◌∙◌, inl, inr,
  Bool-cases, min, Option, some, List, [], ◌∷◌, ◌++◌, true, leb, ltb, arith, Outcome, done,
}
use nimloth_os.Mm.Address.{
  page_size, floor, page_offset, virt_addr_from, usize_from_virt_addr, addr_from_page_num,
}
use nimloth_os.Mm.Pte.{PageTableEntry, ppn_of}
use nimloth_os.Mm.PageTable.{PageTable, translate, from_token, Frames}
use nimloth_os.Mm.FrameAllocator.{StackFrameAllocator}
use nimloth_os.Mm.UserMemory.{Piece, piece, piece_end, piece_loop, translated_byte_buffer}

-- `n` addresses from one on
abbrev pub run : ℕ → ℕ → List ℕ
run zero base = []
run (suc n) base = base ∷ run n (base + 1)

-- the physical addresses of pieces
abbrev pub addresses : List Piece → List ℕ
addresses [] = []
addresses (p ∷ ps) = run (p.to - p.from) (p.frame * page_size + p.from) ++ addresses ps

-- where a user address lies, for the entries of the pages
abbrev pub physical : (ℕ → PageTableEntry) → ℕ → ℕ
physical pte va = ppn_of (pte (va / page_size)) * page_size + va % page_size

abbrev pub user_bytes : (ℕ → PageTableEntry) → ℕ → ℕ → List ℕ
user_bytes pte zero va = []
user_bytes pte (suc n) va = physical pte va ∷ user_bytes pte n (va + 1)

user_bytes-add :
    (pte : ℕ → PageTableEntry) (n m k va w : ℕ)
    → k ≡ n + m
    → w ≡ va + n
    → user_bytes pte k va ≡ user_bytes pte n va ++ user_bytes pte m w
user_bytes-add pte zero m k va w e d =
    let e' : k ≡ m = omega (arith, e) in let d' : w ≡ va = omega (arith, d) in rw (e', d') refl
user_bytes-add pte (suc n) m zero va w e d = absurd (omega (arith, e))
user_bytes-add pte (suc n) m (suc k) va w e d =
    ap (λ l. physical pte va ∷ l)
      (user_bytes-add pte n m k (va + 1) w (omega (arith, e)) (omega (arith, d)))

-- Within one page the physical addresses run on.
run-user_bytes :
    (pte : ℕ → PageTableEntry) (n q o : ℕ)
    → o + n ≤ page_size
    → run n (ppn_of (pte q) * page_size + o) ≡ user_bytes pte n (q * page_size + o)
run-user_bytes pte zero q o h = refl
run-user_bytes pte (suc n) q o h =
    let a : (q * page_size + o) / page_size ≡ q = omega (arith, h) in
    let b : (q * page_size + o) % page_size ≡ o = omega (arith, h) in
    let c : ppn_of (pte q) * page_size + o + 1 ≡ ppn_of (pte q) * page_size + (o + 1) =
      omega arith in
    let d : q * page_size + o + 1 ≡ q * page_size + (o + 1) = omega arith in
    rw (a, b, c, d)
      (ap (λ l. (ppn_of (pte q) * page_size + o) ∷ l)
        (run-user_bytes pte n q (o + 1) (omega (arith, h))))

-- The end of a piece below the kernel's half.
piece_end_lem :
    (start end : ℕ)
    → start < end
    → end < 2 ^ 38
    → piece_end start end ≡ min ((start / page_size + 1) * page_size) end
unfolding piece_end virt_addr_from floor addr_from_page_num
piece_end_lem start end h l =
    let a : start % 2 ^ 39 ≡ start = omega (arith, h, l) in
    let b : end % 2 ^ 39 ≡ end = omega (arith, l) in
    let c : (start / page_size + 1) % 2 ^ 64 * 2 ^ 12 % 2 ^ 64
        ≡ (start / page_size + 1) * page_size =
      omega (arith, h, l) in
    rw (a, b, c) refl

-- The piece that starts at `start` has the bytes up to `piece_end`, and lies in one page.
piece_size :
    (ppn start end : ℕ)
    → start < end
    → end < 2 ^ 38
    → let p = piece ppn start end in
      let e = piece_end start end in
      (start < e)
      × (e ≤ end)
      × (e ≤ (start / page_size + 1) * page_size)
      × (e < end → e ≡ (start / page_size + 1) * page_size)
      × (p.from ≡ start % page_size)
      × (p.to - p.from ≡ e - start)
unfolding piece page_offset virt_addr_from
piece_size ppn start end h l =
    let k = piece_end_lem start end h l in
    let m : piece_end start end ≡ min ((start / page_size + 1) * page_size) end = k in
    let lo : start < piece_end start end = omega (arith, m, h) in
    let hi : piece_end start end ≤ end = omega (arith, m) in
    let page : piece_end start end ≤ (start / page_size + 1) * page_size = omega (arith, m) in
    let a : start % 2 ^ 39 ≡ start = omega (arith, h, l) in
    (lo, hi, page, (λ b. omega (arith, m, b)), rw a refl, rw a (ground (arith, lo, page)))

piece_frame : (ppn start end : ℕ) → (piece ppn start end).frame ≡ ppn
unfolding piece
piece_frame ppn start end = refl

piece-user_bytes :
    (pte : ℕ → PageTableEntry) (start end : ℕ)
    → start < end
    → end < 2 ^ 38
    → let p = piece (ppn_of (pte (start / page_size))) start end in
      run (p.to - p.from) (p.frame * page_size + p.from)
      ≡ user_bytes pte (piece_end start end - start) start
piece-user_bytes pte start end h l =
    let ppn = ppn_of (pte (start / page_size)) in
    let (lo, hi, page, next, from, size) = piece_size ppn start end h l in
    let whole : start / page_size * page_size + start % page_size ≡ start = omega arith in
    rw (size, piece_frame ppn start end, from)
      (rw whole at (
        run-user_bytes pte (piece_end start end - start) (start / page_size) (start % page_size)
          (omega (arith, lo, page))))

-- What the loop gives from `start`: pieces whose bytes are the user's.
abbrev Reads : (ℕ → PageTableEntry) → ℕ → ℕ → Outcome (Option (List Piece)) → Type 0
Reads pte start end r =
    (ps : List Piece) × (r ≡ done (some ps)) × (addresses ps ≡ user_bytes pte (end - start) start)

-- the pages from that of `start` on, up to `end`
abbrev pub Mapped : PageTable → (ℕ → PageTableEntry) → ℕ → ℕ → Type 0
Mapped t pte start end =
    (vpn : ℕ) → start / page_size ≤ vpn → vpn * page_size < end → translate t vpn ≡ some (pte vpn)

piece_loop-Reads :
    (fuel : ℕ) (t : PageTable) (pte : ℕ → PageTableEntry) (start end : ℕ)
    → end < 2 ^ 38
    → Mapped t pte start end
    → 0 < fuel
    → (start < end → end ≤ (start / page_size + (fuel - 1)) * page_size)
    → Reads pte start end (piece_loop fuel t start end)
unfolding piece_loop
piece_loop-Reads zero t pte start end l m f g = absurd (omega (arith, f))
piece_loop-Reads (suc fuel) t pte start end l m f g = elim (Bool-cases (ltb start end)) [
  | inr e ↦ let n : end - start ≡ 0 = ground arith in rw e ([], refl, (rw n refl))
  | inl e ↦
      let h : start < end = ground arith in
      let ppn = ppn_of (pte (start / page_size)) in
      let p = piece ppn start end in
      let stop = piece_end start end in
      let (lo, hi, page, next, from, size) = piece_size ppn start end h l in
      let here : translate t (floor (virt_addr_from start)) ≡ some (pte (start / page_size)) =
        let low : start % 2 ^ 39 ≡ start = omega (arith, h, l) in
        unfold virt_addr_from floor in
        rw low (m (start / page_size) (omega arith) (omega (arith, h))) in
      let same : usize_from_virt_addr stop ≡ stop =
        unfold usize_from_virt_addr in ground (arith, hi, l) in
      let ordered : leb p.from p.to ≡ true = ground (arith, size, lo) in
      let (ps, eq, bytes) =
        piece_loop-Reads fuel t pte stop end l (λ vpn a b. m vpn (omega (arith, a, lo)) b)
          (omega (arith, g h, lo, page, h)) (λ b. omega (arith, g h, next b)) in
      rw (e, here, ordered, same, eq)
        (
          p ∷ ps,
          refl,
          (rw (bytes, piece-user_bytes pte start end h l)
              (sym (
                user_bytes-add pte (stop - start) (end - stop) (end - start) start stop
                  (omega (arith, lo, hi)) (omega (arith, lo))))),
        )
]

-- For a range of user memory below 2^38 whose pages are all mapped, `translated_byte_buffer` answers
-- after at most two rounds more than the range has whole pages, and its pieces, in order, are exactly
-- the bytes of the range: the byte at each user address lies at that address's offset in the frame
-- of its page.
pub translated_byte_buffer_lem :
    (fuel : ℕ) (mem : Frames) (allocator : StackFrameAllocator) (token ptr len : ℕ)
    (pte : ℕ → PageTableEntry)
    → ptr + len < 2 ^ 38
    → Mapped (from_token mem allocator token) pte ptr (ptr + len)
    → len / page_size + 3 ≤ fuel
    → (ps : List Piece) × (translated_byte_buffer fuel mem allocator token ptr len ≡ done (some ps))
      × (addresses ps ≡ user_bytes pte len ptr)
unfolding translated_byte_buffer
translated_byte_buffer_lem fuel mem allocator token ptr len pte l m f =
    let low : (ptr + len) % 2 ^ 64 ≡ ptr + len = omega (arith, l) in
    let n : ptr + len - ptr ≡ len = omega arith in
    let (ps, e, b) =
      piece_loop-Reads fuel (from_token mem allocator token) pte ptr (ptr + len) l m
        (omega (arith, f)) (λ h. omega (arith, f)) in
    (
      ps,
      ap (λ end. piece_loop fuel (from_token mem allocator token) ptr end) low ∙ e,
      b ∙ ap (λ k. user_bytes pte k ptr) n,
    )
