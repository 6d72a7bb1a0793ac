-- ===== src/Micro/Layout.antt =====
-- components/src/micro_fs/layout.rs: the superblock, the inodes on the disk with their three levels
-- of index blocks, and the counts of blocks.
pub mod Grow
pub mod Clear
pub mod Data
pub mod Dirent
use nimloth_os.Prelude.{
  ℕ, zero, suc, ◌+◌, ◌-◌, ◌*◌, ◌/◌, ◌%◌, ◌^◌, min, Bool, true, false, ◌&&◌, List, [], ◌∷◌, ◌==◌,
  leb, ltb, if◌then◌else◌, Outcome, done, panic, assert, ◌>>=◌, ◌>>◌,
}

-- The bytes of the blocks, by number and offset, as the block cache presents them.
abbrev pub Disk : Type 0
Disk = ℕ → ℕ → ℕ

abbrev pub block_sz : ℕ
block_sz = 512

abbrev pub mfs_magic : ℕ
mfs_magic = 998244353

abbrev pub inode_direct_count : ℕ
inode_direct_count = 27

abbrev pub inode_indirect1_count : ℕ
inode_indirect1_count = 128

abbrev pub indirect1_bound : ℕ
indirect1_bound = 155

abbrev pub inode_indirect2_count : ℕ
inode_indirect2_count = 16384

abbrev pub indirect2_bound : ℕ
indirect2_bound = 16539

abbrev pub inode_indirect3_count : ℕ
inode_indirect3_count = 2097152

-- An entry of an `IndirectBlock`, a little-endian u32.
unfoldable pub entry : Disk → ℕ → ℕ → ℕ
entry disk b i =
    disk b (4 * i)
    + 256 * disk b (4 * i + 1)
    + 65536 * disk b (4 * i + 2)
    + 16777216 * disk b (4 * i + 3)

unfoldable pub set_entry : Disk → ℕ → ℕ → ℕ → Disk
set_entry disk b i v b' k = if (b == b') && (i == k / 4) then v / 256 ^ (k % 4) % 256 else disk b' k

pub record SuperBlock : Type 0 where
  pub magic : ℕ
  pub total_blocks : ℕ
  pub inode_bitmap_blocks : ℕ
  pub inode_area_blocks : ℕ
  pub data_bitmap_blocks : ℕ
  pub data_area_blocks : ℕ

pub data DiskInodeType : Type 0 where
  file_type dir_type : DiskInodeType

-- `direct` is the array of 27 numbers, by index.
pub record DiskInode : Type 0 where
  pub size : ℕ
  pub direct : ℕ → ℕ
  pub indirect1 : ℕ
  pub indirect2 : ℕ
  pub indirect3 : ℕ
  pub type_ : DiskInodeType

unfoldable pub initialize_super_block : ℕ → ℕ → ℕ → ℕ → ℕ → SuperBlock
initialize_super_block total inode_bitmap inode_area data_bitmap data_area = record {
  magic = mfs_magic;
  total_blocks = total;
  inode_bitmap_blocks = inode_bitmap;
  inode_area_blocks = inode_area;
  data_bitmap_blocks = data_bitmap;
  data_area_blocks = data_area;
}

unfoldable pub valid : SuperBlock → Bool
valid s = s.magic == mfs_magic

unfoldable pub initialize : DiskInodeType → DiskInode
initialize t = record {
  size = 0;
  direct = λ _. 0;
  indirect1 = 0;
  indirect2 = 0;
  indirect3 = 0;
  type_ = t;
}

unfoldable pub dir : DiskInode → Bool
dir n = elim n.type_ [ dir_type ↦ true | file_type ↦ false ]

unfoldable pub file : DiskInode → Bool
file n = elim n.type_ [ dir_type ↦ false | file_type ↦ true ]

-- An index of an `IndirectBlock`.
abbrev pub indexed : Disk → ℕ → ℕ → Outcome ℕ
indexed disk b i = assert (ltb i inode_indirect1_count) >> done (entry disk b i)

unfoldable pub block_id : DiskInode → Disk → ℕ → Outcome ℕ
unfolding entry
block_id n disk inner_id =
    if ltb inner_id inode_direct_count
    then done (n.direct inner_id)
    else if ltb inner_id indirect1_bound
    then indexed disk n.indirect1 (inner_id - inode_direct_count)
    else if ltb inner_id indirect2_bound
    then (let last = inner_id - indirect1_bound in
        do
          indirect1 ← indexed disk n.indirect2 (last / inode_indirect1_count)
          indexed disk indirect1 (last % inode_indirect1_count))
    else (let last = inner_id - indirect2_bound in
        do
          indirect1 ← indexed disk n.indirect3 (last / inode_indirect2_count)
          indirect2 ← indexed disk indirect1 (last % inode_indirect2_count / inode_indirect1_count)
          indexed disk indirect2 (last % inode_indirect2_count % inode_indirect1_count))

-- `_data_blocks`, whose sum is a u32.
unfoldable pub data_blocks_of : ℕ → ℕ
data_blocks_of size = (size + 511) % 2 ^ 32 / block_sz

unfoldable pub data_blocks : DiskInode → ℕ
unfolding data_blocks_of
data_blocks n = data_blocks_of n.size

-- The blocks of an inode with that many data blocks, index blocks included.
abbrev pub with_index_blocks : ℕ → ℕ
with_index_blocks n =
    n
    + (if ltb inode_direct_count n then 1 else 0)
    + (if ltb indirect1_bound n
        then 1 + min ((n - indirect1_bound + 127) / 128) inode_indirect1_count
        else 0)
    + (if ltb indirect2_bound n
        then 1 + (n - indirect2_bound + 16383) / 16384 + (n - indirect2_bound + 127) / 128
        else 0)

unfoldable pub total_blocks : ℕ → ℕ
unfolding data_blocks_of
total_blocks size = with_index_blocks (data_blocks_of size) % 2 ^ 32

unfoldable pub blocks_num_needed : DiskInode → ℕ → Outcome ℕ
unfolding total_blocks
blocks_num_needed n new_size =
    assert (leb n.size new_size) >> done (total_blocks new_size - total_blocks n.size)
