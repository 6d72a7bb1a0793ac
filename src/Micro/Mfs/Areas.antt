-- ===== src/Micro/Mfs/Areas.antt =====
-- The areas of a new file system.
use nimloth_os.Prelude.{
  ℕ, ◌+◌, ◌*◌, ◌%◌, ◌^◌, ◌≤◌, ◌<◌, ◌≡◌, inl, inr, refl, ap, subst, ◌∙◌, Bool-cases, true, false,
  Option, none, some, ltb, arith, Outcome, done, unwrap, ◌>>=◌,
}
use nimloth_os.Micro.Bitmap.{Bitmap, Blocks, maximum, alloc}
use nimloth_os.Micro.Bitmap.Bits.{bit_at, AreWords}
use nimloth_os.Micro.Bitmap.Alloc.{Allocated, lowest, bitmap_alloc}
use nimloth_os.Micro.Layout.{initialize_super_block, valid}
use nimloth_os.Micro.Mfs.{
  BlockManager, MicroFs, create_manager, create_super_block, open_mfs, disk_inode_pos, alloc_data,
  inode_size,
}

-- What `open` reads back from the superblock that `create` wrote is the manager that `create` returned.
pub open_mfs-create :
    (total inode_bitmap_blocks : ℕ)
    → open_mfs (create_super_block total inode_bitmap_blocks)
      ≡ done (create_manager total inode_bitmap_blocks)
unfolding open_mfs create_super_block create_manager initialize_super_block valid
open_mfs-create total inode_bitmap_blocks = refl

-- A device of `total` blocks has room for the superblock, the bitmap and the area of the inodes, and at
-- least two blocks for data, and the sums of the sizes stay below 2^32.
pub record Fits (total inode_bitmap_blocks : ℕ) : Type 0 where
  pub word : total + 4096 < 2 ^ 32
  pub room : 3 + 1025 * inode_bitmap_blocks ≤ total

-- The areas that `create` lays out follow each other without overlap and fill the device: one block for
-- the superblock, the inode bitmap, four inodes a block for each of its bits, the data bitmap, and the
-- data area, for each block of which the data bitmap has a bit.
pub areas_fill_device :
    (total i : ℕ)
    → Fits total i
    → let m = create_manager total i in
      let s = create_super_block total i in
      (m.inode_bitmap.start_block_id ≡ 1)
      × (m.inode_area_start_block ≡ 1 + i)
      × (s.inode_area_blocks * 4 ≡ maximum m.inode_bitmap)
      × (m.data_bitmap.start_block_id ≡ m.inode_area_start_block + s.inode_area_blocks)
      × (m.data_area_start_block ≡ m.data_bitmap.start_block_id + m.data_bitmap.blocks)
      × (m.data_area_start_block + s.data_area_blocks ≡ total)
      × (s.data_area_blocks ≤ maximum m.data_bitmap)
unfolding create_super_block create_manager initialize_super_block
areas_fill_device total i f = (
  refl,
  omega (arith, f.word, f.room),
  omega (arith, f.word, f.room),
  omega (arith, f.word, f.room),
  omega (arith, f.word, f.room),
  omega (arith, f.word, f.room),
  omega (arith, f.word, f.room),
)

-- An inode that the bitmap can number lies whole in the inode area, and no two of them overlap.
pub inodes_apart :
    (total i a b : ℕ)
    → Fits total i
    → a < maximum (create_manager total i).inode_bitmap
    → b < maximum (create_manager total i).inode_bitmap
    → let m = create_manager total i in
      let p = disk_inode_pos m a in
      let q = disk_inode_pos m b in
      (m.inode_area_start_block ≤ p.0)
      × (p.0 < m.data_bitmap.start_block_id)
      × (p.1 + inode_size ≤ 512)
      × ((p.0 ≡ q.0) → (p.1 < q.1 + inode_size) → (q.1 < p.1 + inode_size) → a ≡ b)
unfolding create_manager disk_inode_pos
inodes_apart total i a b f ha hb = (
  omega (arith, f.word, f.room, ha),
  omega (arith, f.word, f.room, ha),
  omega arith,
  λ e l m. omega (arith, f.word, f.room, ha, hb, e, l, m),
)

-- What `alloc_data` grants where the data area has `area` blocks.
abbrev pub Grants : MicroFs → BlockManager → ℕ → ℕ → Type 0
Grants fs m area total =
    ((k : ℕ)
      → k < area
      → bit_at m.data_bitmap fs.bits k ≡ false
      → (fs' : MicroFs) × (bit : ℕ) × (alloc_data fs ≡ done (fs', m.data_area_start_block + bit))
        × (bit ≤ k)
        × (bit_at m.data_bitmap fs.bits bit ≡ false)
        × (m.data_area_start_block + bit < total))
    × (((k : ℕ) → k < area → bit_at m.data_bitmap fs.bits k ≡ true)
        → bit_at m.data_bitmap fs.bits area ≡ false
        → area < maximum m.data_bitmap
        → (fs' : MicroFs) × (alloc_data fs ≡ done (fs', total)))

alloc_data-Grants :
    (fs : MicroFs) (area total : ℕ)
    → total < 2 ^ 32
    → fs.manager.data_area_start_block + area ≡ total
    → area ≤ maximum fs.manager.data_bitmap
    → AreWords fs.bits
    → Grants fs fs.manager area total
unfolding alloc_data
alloc_data-Grants fs area total w e l words =
    go (alloc fs.manager.data_bitmap fs.bits) (bitmap_alloc fs.manager.data_bitmap fs.bits words)
  where
    start : ℕ
    start = fs.manager.data_area_start_block

    bm : Bitmap
    bm = fs.manager.data_bitmap

    answer : Blocks × Option ℕ → Outcome (MicroFs × ℕ)
    answer r = unwrap (r.1) >>= λ n. done (record fs { bits = r.0 }, (n + start) % 2 ^ 32)

    not_above : (a b : ℕ) → (b < a → ⊥) → a ≤ b
    not_above a b h = elim (Bool-cases (ltb b a)) [
      | inl x ↦ absurd (h (ground (arith, x)))
      | inr x ↦ ground (arith, x)
    ]

    go :
        (r : Blocks × Option ℕ)
        → Allocated bm fs.bits r
        → ((k : ℕ)
            → k < area
            → bit_at bm fs.bits k ≡ false
            → (fs' : MicroFs) × (bit : ℕ) × (answer r ≡ done (fs', start + bit))
              × (bit ≤ k)
              × (bit_at bm fs.bits bit ≡ false)
              × (start + bit < total))
          × (((k : ℕ) → k < area → bit_at bm fs.bits k ≡ true)
              → bit_at bm fs.bits area ≡ false
              → area < maximum bm
              → (fs' : MicroFs) × (answer r ≡ done (fs', total)))
    go (bits, some bit) (lowest m c low s a) = (
      λ k h f.
          let le : bit ≤ k = not_above bit k (λ g. cc (low k g, f)) in
          let z : (bit + start) % 4294967296 ≡ start + bit = omega (arith, w, e, le, h) in
          (record fs { bits = bits }, bit, rw z refl, le, c, omega (arith, e, le, h)),
      λ full free room.
          let le : bit ≤ area = not_above bit area (λ g. cc (low area g, free)) in
          let ge : area ≤ bit = not_above area bit (λ g. cc (full bit g, c)) in
          let z : (bit + start) % 4294967296 ≡ total = omega (arith, w, e, le, ge) in
          (record fs { bits = bits }, rw z refl),
    )
    go (bits, none) (Allocated.full f) =
        (λ k h c. cc (f k (omega (arith, h, l)), c), λ full free room. cc (f area room, free))

-- What `alloc_data` grants on a file system that `create` laid out: while a block of the data area is
-- free, the first of these; when none is, but the data bitmap has more bits than the area has blocks and
-- the first of those is clear, the block after the last one of the device.
pub alloc_data-Granted :
    (total i : ℕ) (fs : MicroFs)
    → Fits total i
    → fs.manager ≡ create_manager total i
    → AreWords fs.bits
    → Grants fs (create_manager total i) (create_super_block total i).data_area_blocks total
alloc_data-Granted total i fs f e w =
    let area = (create_super_block total i).data_area_blocks in
    let (a, b, c, d, g, filled, l) = areas_fill_device total i f in
    let start = ap (λ (m : BlockManager). m.data_area_start_block + area) e in
    let room = ap (λ (m : BlockManager). maximum m.data_bitmap) e in
    subst (λ (m : BlockManager). Grants fs m area total) e
      (alloc_data-Grants fs area total (omega (arith, f.word)) (start ∙ filled)
        (omega (arith, room, l)) w)
