-- ===== src/Micro/Mfs.antt =====
-- components/src/micro_fs/mfs.rs: the areas of the device, and the allocation of inodes and data blocks.
pub mod Areas
use nimloth_os.Prelude.{
  ℕ, zero, suc, ◌+◌, ◌-◌, ◌*◌, ◌/◌, ◌%◌, ◌^◌, Option, none, some, ◌==◌, ltb, if◌then◌else◌, Outcome,
  done, panic, assert, unwrap, ◌>>=◌, ◌>>◌,
}
use nimloth_os.Micro.Bitmap.{Bitmap, Blocks, maximum}
use nimloth_os.Micro.Bitmap
use nimloth_os.Micro.Layout.{
  Disk, DiskInode, SuperBlock, initialize_super_block, valid, initialize, dir_type,
}

-- `size_of::<DiskInode>()`: 31 numbers of four bytes and the padded type.
abbrev pub inode_size : ℕ
inode_size = 128

abbrev pub sub32 : ℕ → ℕ → ℕ
sub32 a b = (a + 2 ^ 32 - b) % 2 ^ 32

pub record BlockManager : Type 0 where
  pub inode_bitmap : Bitmap
  pub data_bitmap : Bitmap
  pub inode_area_start_block : ℕ
  pub data_area_start_block : ℕ

-- The device as the file system uses it: the words of the bitmap blocks, the inodes of the inode area
-- by number, and the bytes of the data blocks.
pub record MicroFs : Type 0 where
  pub manager : BlockManager
  pub bits : Blocks
  pub inodes : ℕ → DiskInode
  pub disk : Disk

-- The sizes that `create` computes, with the superblock that it writes.
abbrev pub inode_area_blocks_of : ℕ → ℕ
inode_area_blocks_of inode_bitmap_blocks =
    (inode_bitmap_blocks * Bitmap.block_bits * inode_size + 511) / 512 % 2 ^ 32

abbrev pub inode_total_blocks_of : ℕ → ℕ
inode_total_blocks_of inode_bitmap_blocks =
    (inode_bitmap_blocks + inode_area_blocks_of inode_bitmap_blocks) % 2 ^ 32

abbrev pub data_total_blocks_of : ℕ → ℕ → ℕ
data_total_blocks_of total inode_bitmap_blocks =
    sub32 (sub32 total 1) (inode_total_blocks_of inode_bitmap_blocks)

abbrev pub data_bitmap_blocks_of : ℕ → ℕ → ℕ
data_bitmap_blocks_of total inode_bitmap_blocks =
    (data_total_blocks_of total inode_bitmap_blocks + 4096) % 2 ^ 32 / 4097

unfoldable pub create_manager : ℕ → ℕ → BlockManager
create_manager total inode_bitmap_blocks =
    let inode_total = inode_total_blocks_of inode_bitmap_blocks in
    let data_bitmap = data_bitmap_blocks_of total inode_bitmap_blocks in
    record {
      inode_bitmap = Bitmap.new 1 inode_bitmap_blocks;
      data_bitmap = Bitmap.new ((1 + inode_total) % 2 ^ 32) data_bitmap;
      inode_area_start_block = (1 + inode_bitmap_blocks) % 2 ^ 32;
      data_area_start_block = (1 + inode_total + data_bitmap) % 2 ^ 32;
    }

unfoldable pub create_super_block : ℕ → ℕ → SuperBlock
unfolding initialize_super_block
create_super_block total inode_bitmap_blocks =
    let data_bitmap = data_bitmap_blocks_of total inode_bitmap_blocks in
    initialize_super_block total inode_bitmap_blocks (inode_area_blocks_of inode_bitmap_blocks)
      data_bitmap (sub32 (data_total_blocks_of total inode_bitmap_blocks) data_bitmap)

unfoldable pub open_mfs : SuperBlock → Outcome BlockManager
unfolding valid
open_mfs s =
    let inode_total = (s.inode_bitmap_blocks + s.inode_area_blocks) % 2 ^ 32 in
    assert (valid s)
    >> done (record {
      inode_bitmap = Bitmap.new 1 s.inode_bitmap_blocks;
      data_bitmap = Bitmap.new ((1 + inode_total) % 2 ^ 32) s.data_bitmap_blocks;
      inode_area_start_block = (1 + s.inode_bitmap_blocks) % 2 ^ 32;
      data_area_start_block = (1 + inode_total + s.data_bitmap_blocks) % 2 ^ 32;
    })

-- The block of an inode and its offset there.
unfoldable pub disk_inode_pos : BlockManager → ℕ → ℕ × ℕ
disk_inode_pos m inode_id =
    ((m.inode_area_start_block + inode_id / 4) % 2 ^ 32, inode_id % 4 * inode_size)

unfoldable pub alloc_inode : MicroFs → Outcome (MicroFs × ℕ)
unfolding Bitmap.alloc
alloc_inode fs =
    let (bits, bit) = Bitmap.alloc fs.manager.inode_bitmap fs.bits in
    unwrap bit >>= λ inode_id. done (record fs { bits = bits }, inode_id)

unfoldable pub alloc_data : MicroFs → Outcome (MicroFs × ℕ)
unfolding Bitmap.alloc
alloc_data fs =
    let (bits, bit) = Bitmap.alloc fs.manager.data_bitmap fs.bits in
    unwrap bit >>= λ n.
    done (record fs { bits = bits }, (n + fs.manager.data_area_start_block) % 2 ^ 32)

-- The block is overwritten with zeros and its bit is cleared.
unfoldable pub dealloc_data : MicroFs → ℕ → Outcome MicroFs
unfolding Bitmap.dealloc
dealloc_data fs block_id =
    Bitmap.dealloc fs.manager.data_bitmap fs.bits (sub32 block_id fs.manager.data_area_start_block)
    >>= λ bits.
        done (record fs { bits = bits; disk = λ b k. if block_id == b then 0 else fs.disk b k })

-- `create` on a device with any contents.
unfoldable pub create : MicroFs → ℕ → ℕ → Outcome (SuperBlock × MicroFs)
unfolding create_manager create_super_block alloc_inode initialize
create device total inode_bitmap_blocks =
    let blank : MicroFs = record {
      manager = create_manager total inode_bitmap_blocks;
      bits = λ b i. if ltb b total then 0 else device.bits b i;
      inodes = device.inodes;
      disk = λ b k. if ltb b total then 0 else device.disk b k;
    } in
    do
      (fs, root) ← alloc_inode blank
      assert (root == 0)
      done (
        create_super_block total inode_bitmap_blocks,
        record fs { inodes = λ i. if i == 0 then initialize dir_type else fs.inodes i },
      )
