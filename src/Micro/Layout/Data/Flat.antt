-- ===== src/Micro/Layout/Data/Flat.antt =====
-- Writes and reads of a file together.
use nimloth_os.Prelude.{
  ℕ, zero, suc, ◌+◌, ◌-◌, ◌*◌, ◌/◌, ◌%◌, ◌≤◌, ◌<◌, ◌≡◌, refl, ap, ◌∙◌, inl, inr, min, Bool-cases,
  ==_eq, true, false, ◌&&◌, List, [], ◌∷◌, length, take, get_or, ◌==◌, leb, ltb, if◌then◌else◌,
  arith, subst, done, panic, ◌>>=◌,
}
use nimloth_os.Micro.Layout.{Disk, DiskInode}
use nimloth_os.Micro.Layout.Data.{block_end, copy_to, write_loop, write_at, read_at, bytes_from}
use nimloth_os.Micro.Layout.Data.Read.{
  data_block, file_byte, block_id-data_block, read_at_lem, bytes_from-ext,
}
use nimloth_os.Micro.Layout.Data.Separate.{IsFile, OnlyData, data_block-kept}
use nimloth_os.Micro.Layout.Data.Write.{Wrote, write_loop_lem}

-- Where a write of so many bytes ends: the file does not grow.
abbrev pub write_end : DiskInode → ℕ → List ℕ → ℕ
write_end n offset bytes = min (offset + length bytes) n.size

-- A round that begins at the end of the file writes no byte.
empty_write :
    (n : DiskInode) (disk : Disk) (count offset : ℕ) (bytes : List ℕ)
    → IsFile n disk count
    → offset ≤ 512 * count
    → (disk' : Disk) × (write_loop 1 n disk (offset / 512) offset offset bytes ≡ done disk')
      × ((b k : ℕ) → disk' b k ≡ disk b k)
unfolding write_loop copy_to
empty_write n disk count offset bytes v l =
    let s : block_end offset offset ≡ offset = omega arith in
    let z : offset - offset ≡ 0 = omega arith in
    let q : (offset == offset) ≡ true = ground arith in
    let d = data_block n disk (offset / 512) in
    let k = offset % 512 in
    (
      copy_to disk d k 0 bytes,
      (rw (block_id-data_block n disk (offset / 512) (omega (arith, l, v.bounded)), s, z, q) refl),
      λ b j. nothing d k b j (disk b j),
    )
  where
    nothing :
        (d k b j old : ℕ)
        → (if (d == b) && (leb k j && ltb j (k + 0)) then get_or bytes (j - k) 0 else old) ≡ old
    nothing d k b j old = ground arith

write_end-Wrote :
    (n : DiskInode) (disk : Disk) (count offset : ℕ) (bytes : List ℕ)
    → IsFile n disk count
    → n.size ≤ 512 * count
    → offset ≤ n.size
    → (disk' : Disk) × (write_at n disk offset bytes
        ≡ done (disk', write_end n offset bytes - offset))
      × Wrote n count disk offset (write_end n offset bytes) bytes disk'
unfolding write_at
write_end-Wrote n disk count offset bytes v m l =
    let stop = write_end n offset bytes in
    let le : offset ≤ stop = omega (arith, l) in
    let a : leb offset stop ≡ true = ground (arith, le) in
    let (disk', r, w) = written stop le (omega (arith, m)) in (disk', rw (a, r) refl, w)
  where
    written :
        (stop : ℕ)
        → offset ≤ stop
        → stop ≤ 512 * count
        → (disk' : Disk) × (write_loop (suc (stop - offset)) n disk (offset / 512) offset stop bytes
            ≡ done disk')
          × Wrote n count disk offset stop bytes disk'
    written stop le k = elim (Bool-cases (offset == stop)) [
      | inr e ↦
          let lt : offset < stop = ground (arith, e, le) in
          write_loop_lem (suc (stop - offset)) n count disk offset stop bytes v lt k (omega arith)
      | inl e ↦
          let s : offset ≡ stop = ==_eq offset stop e in
          subst
            (λ (q : ℕ).
              (disk' : Disk) × (write_loop (suc (q - offset)) n disk (offset / 512) offset q bytes
                ≡ done disk')
              × Wrote n count disk offset q bytes disk')
            s (nothing_written (omega (arith, k, le)))
    ]
      where
        untouched :
            (p old : ℕ)
            → old ≡ (if leb offset p && ltb p offset then get_or bytes (p - offset) 0 else old)
        untouched p old = ground arith

        nothing_written :
            offset ≤ 512 * count
            → (disk' : Disk) × (write_loop
                  (suc (offset - offset))
                  n
                  disk
                  (offset / 512)
                  offset
                  offset
                  bytes
                ≡ done disk')
              × Wrote n count disk offset offset bytes disk'
        nothing_written h =
            let (disk', r, same) = empty_write n disk count offset bytes v h in
            let z : 1 ≡ suc (offset - offset) = omega arith in
            (
              disk',
              subst (λ (q : ℕ). write_loop q n disk (offset / 512) offset offset bytes ≡ done disk')
                  z r,
              record {
                only = λ b k free. same b k;
                bytes_at = λ i k l small.
                    same (data_block n disk i) k
                    ∙ untouched (512 * i + k) (disk (data_block n disk i) k);
              },
            )

-- `write_at` at an offset of the file writes as many bytes as the file has room for and does not panic:
-- those positions of the file hold the bytes of the buffer afterwards, the others hold what they held,
-- and no block but the file's data blocks changes. An offset beyond the size panics. The file has data
-- blocks for its size, which are distinct and not among its index blocks.
pub write_at_lem :
    (n : DiskInode) (disk : Disk) (count offset : ℕ) (bytes : List ℕ)
    → IsFile n disk count
    → n.size ≤ 512 * count
    → (offset ≤ n.size
        → (disk' : Disk) × (write_at n disk offset bytes
            ≡ done (disk', write_end n offset bytes - offset))
          × ((p : ℕ)
              → p < 512 * count
              → file_byte n disk' p ≡ (
                  if leb offset p && ltb p (write_end n offset bytes)
                  then get_or bytes (p - offset) 0
                  else file_byte n disk p))
          × OnlyData n count disk disk')
      × (n.size < offset → write_at n disk offset bytes ≡ panic)
unfolding write_at
write_at_lem n disk count offset bytes v m = (
  λ l.
      let (disk', r, w) = write_end-Wrote n disk count offset bytes v m l in
      (disk', r, λ p h. position disk' w p h, w.only),
  λ l. let a : leb offset (write_end n offset bytes) ≡ false = ground (arith, l) in rw a refl,
)
  where
    position :
        (disk' : Disk)
        → Wrote n count disk offset (write_end n offset bytes) bytes disk'
        → (p : ℕ) → p < 512 * count
        → file_byte n disk' p ≡ (
            if leb offset p && ltb p (write_end n offset bytes)
            then get_or bytes (p - offset) 0
            else file_byte n disk p)
    position disk' w p h =
        let i : p / 512 < count = omega (arith, h) in
        let k = data_block-kept n disk disk' count v w.only (p / 512) i in
        let e : 512 * (p / 512) + p % 512 ≡ p = omega arith in
        let at = w.bytes_at (p / 512) (p % 512) i (omega arith) in rw k (rw e at at)

bytes_from-take :
    (bytes : List ℕ) (m : ℕ)
    → m ≤ length bytes
    → bytes_from (λ i. get_or bytes i 0) 0 m ≡ take m bytes
bytes_from-take bytes zero h = refl
bytes_from-take [] (suc m) h = absurd (omega (arith, h))
bytes_from-take (x ∷ bytes) (suc m) h =
    ap (λ (xs : List ℕ). x ∷ xs)
      (bytes_from-ext (λ i. get_or (x ∷ bytes) i 0) (λ i. get_or bytes i 0) 1 0 m
          (λ i l.
            let e : 1 + i ≡ suc i = omega arith in
            let z : 0 + i ≡ i = omega arith in rw (e, z) refl)
        ∙ bytes_from-take bytes m (omega (arith, h)))

-- What `write_at` wrote, `read_at` reads: from the same offset and with a buffer of the same length it
-- gives the bytes that fitted into the file.
pub read_at-write_at :
    (n : DiskInode) (disk : Disk) (count offset : ℕ) (bytes : List ℕ)
    → IsFile n disk count
    → n.size ≤ 512 * count
    → offset ≤ n.size
    → (write_at n disk offset bytes >>= λ w. read_at n (w.0) offset (length bytes))
      ≡ done (take (write_end n offset bytes - offset) bytes)
read_at-write_at n disk count offset bytes v m l =
    let (disk', r, q, o) = (write_at_lem n disk count offset bytes v m).0 l in
    let stop = write_end n offset bytes in
    rw r (
      read_at_lem n disk' offset (length bytes) (omega (arith, m, v.bounded))
      ∙ ap done (
          bytes_from-ext (file_byte n disk') (λ i. get_or bytes i 0) offset 0 (stop - offset)
            (λ i k.
              let a : leb offset (offset + i) ≡ true = ground arith in
              let b : ltb (offset + i) stop ≡ true = ground (arith, k) in
              let c : offset + i - offset ≡ i = omega arith in
              let z : 0 + i ≡ i = omega arith in
              let y = rw (a, b, c) at (q (offset + i) (omega (arith, k, m))) in rw z y)
          ∙ bytes_from-take bytes (stop - offset) (omega arith)))
