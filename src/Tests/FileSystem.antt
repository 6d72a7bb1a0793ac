-- ===== src/Tests/FileSystem.antt =====
-- The block file system at a concrete device.
use nimloth_os.Prelude.{
  ℕ, ◌+◌, ◌*◌, ◌≤◌, ◌<◌, ◌≡◌, refl, Bool, true, false, ◌&&◌, none, some, List, [], ◌∷◌, length,
  ◌==◌, ltb, if◌then◌else◌, arith, done, panic, ◌>>=◌,
}
use nimloth_os.Micro.Bitmap.{maximum, test_bit}
use nimloth_os.Micro.Layout.{
  DiskInode, file_type, dir_type, block_id, data_blocks_of, dir, initialize,
}
use nimloth_os.Micro.Layout.Data.Separate.{IsFile}
use nimloth_os.Micro.Layout.Dirent.{DirEntry, new_entry, name_of, name_of-new_entry}
use nimloth_os.Micro.Mfs.{MicroFs, create_manager, create_super_block, alloc_inode}
use nimloth_os.Micro.Mfs.Areas.{Fits, Grants, areas_fill_device, alloc_data-Granted}
use nimloth_os.Micro.Vfs.{read_at, create_inode, ls, find_inode_id}
use nimloth_os.Micro.Vfs.Directory.{Answer, position, find_inode_id-ls}
use nimloth_os.Micro.Vfs.Create.{HasRoom, IsName}
use nimloth_os.Micro.Vfs.Names.{IsMade, Created, create_inode-ls}
use nimloth_os.Micro.Bitmap.Bits.{bit_at}
use nimloth_os.Fs.Inode.{os_inode, moved, read, read_all, open_file}
use nimloth_os.Fs.Inode.Reading.{
  left, remaining, read_all_lem, file_bytes, read_lem, open_file_root,
}

abbrev any_bytes : List ℕ → Bool
any_bytes bytes = true

abbrev short_name : List ℕ
short_name = 97 ∷ []

name_of-new_entry_example :
    (length short_name ≤ 27
      → (new_entry short_name 5 >>= λ e. name_of any_bytes e) ≡ done short_name)
    × (length short_name ≡ 28
        → (e : DirEntry) × (new_entry short_name 5 ≡ done e) × (name_of any_bytes e ≡ panic))
    × (28 < length short_name → new_entry short_name 5 ≡ panic)
name_of-new_entry_example = name_of-new_entry any_bytes short_name 5 (refl, tt) refl

-- The sizes of the image that the image builder makes.
image-Fits : Fits 32768 1
image-Fits = record { word = omega arith; room = omega arith }

areas_fill_device_example :
    ((create_manager 32768 1).inode_bitmap.start_block_id ≡ 1)
    × ((create_manager 32768 1).inode_area_start_block ≡ 2)
    × ((create_super_block 32768 1).inode_area_blocks * 4 ≡ 4096)
    × ((create_manager 32768 1).data_bitmap.start_block_id
        ≡ (create_manager 32768 1).inode_area_start_block
          + (create_super_block 32768 1).inode_area_blocks)
    × ((create_manager 32768 1).data_area_start_block
        ≡ (create_manager 32768 1).data_bitmap.start_block_id
          + (create_manager 32768 1).data_bitmap.blocks)
    × ((create_manager 32768 1).data_area_start_block
          + (create_super_block 32768 1).data_area_blocks
        ≡ 32768)
    × ((create_super_block 32768 1).data_area_blocks ≤ maximum (create_manager 32768 1).data_bitmap)
unfolding create_manager
areas_fill_device_example = areas_fill_device 32768 1 image-Fits

abbrev image : MicroFs
image = record {
  manager = create_manager 32768 1;
  bits = λ b i. 0;
  inodes = λ i. initialize dir_type;
  disk = λ b k. 0;
}

alloc_data-Granted_example :
    Grants image (create_manager 32768 1) (create_super_block 32768 1).data_area_blocks 32768
alloc_data-Granted_example = alloc_data-Granted 32768 1 image image-Fits refl λ b i. omega arith

-- A directory with the entry `a`, as inode 0.
abbrev one_entry : DiskInode
one_entry = record {
  size = 32;
  direct = λ i. 10 + i;
  indirect1 = 0;
  indirect2 = 0;
  indirect3 = 0;
  type_ = dir_type;
}

abbrev small_fs : MicroFs
small_fs = record {
  manager = create_manager 32768 1;
  bits = λ b i. if (b == 1) && (i == 0) then 1 else 0;
  inodes = λ i. one_entry;
  disk = λ b k. if (b == 10) && (k == 0) then 97 else 0;
}

small_fs_lists : ls any_bytes small_fs 0 ≡ done ((97 ∷ []) ∷ [])
unfolding ls
small_fs_lists = refl

one_entry-IsFile : IsFile one_entry small_fs.disk 1
unfolding block_id
one_entry-IsFile = record {
  bounded = omega arith;
  distinct = λ i j a b e. omega (arith, a, b);
  apart = λ i j a b. let e : ltb i 27 ≡ true = ground (arith, a) in rw e refl;
}

small_fs-HasRoom : HasRoom any_bytes small_fs 0 ((97 ∷ []) ∷ [])
unfolding dir data_blocks_of
small_fs-HasRoom = record {
  is_dir = refl;
  whole = refl;
  room = omega arith;
  bounded = omega arith;
  blocks = one_entry-IsFile;
  listed = small_fs_lists;
}

letter_b-IsName : IsName any_bytes (98 ∷ [])
letter_b-IsName = record { non_zero = (refl, tt); utf8 = refl; short = omega arith }

find_inode_id-ls_example :
    Answer one_entry small_fs.disk 0
      (some 0)
      (find_inode_id any_bytes one_entry small_fs.disk (97 ∷ []))
find_inode_id-ls_example =
    find_inode_id-ls any_bytes small_fs 0 (97 ∷ []) ((97 ∷ []) ∷ []) (small_fs-HasRoom.is_dir)
      small_fs_lists

small_fs-IsMade : IsMade small_fs 32768 1 0
unfolding create_manager bit_at test_bit
small_fs-IsMade = record {
  fits = image-Fits;
  small = omega arith;
  manager = refl;
  words = λ b i. ground arith;
  taken = refl;
}

create_inode-ls_example :
    ((j : ℕ)
      → position ((97 ∷ []) ∷ []) (98 ∷ []) ≡ some j
      → create_inode any_bytes small_fs 0 (98 ∷ []) file_type ≡ done (small_fs, none))
    × (position ((97 ∷ []) ∷ []) (98 ∷ []) ≡ none
        → (k : ℕ) → k < maximum small_fs.manager.inode_bitmap
        → bit_at small_fs.manager.inode_bitmap small_fs.bits k ≡ false
        → (id : ℕ) × (fs' : MicroFs) × (id ≤ k)
          × Created any_bytes small_fs 0 (98 ∷ []) file_type ((97 ∷ []) ∷ []) id fs')
    × (position ((97 ∷ []) ∷ []) (98 ∷ []) ≡ none
        → ((k : ℕ)
            → k < maximum small_fs.manager.inode_bitmap
            → bit_at small_fs.manager.inode_bitmap small_fs.bits k ≡ true)
        → create_inode any_bytes small_fs 0 (98 ∷ []) file_type ≡ panic)
create_inode-ls_example =
    create_inode-ls any_bytes small_fs 32768 1 0 (98 ∷ []) file_type ((97 ∷ []) ∷ [])
      small_fs-IsMade small_fs-HasRoom letter_b-IsName

-- The inode that the new name takes above.
alloc_inode_test :
    alloc_inode small_fs
    ≡ done (
      record small_fs {
        bits = λ b i. if (b == 1) && (i == 0) then 3 else if (b == 1) && (i == 0) then 1 else 0;
      },
      1,
    )
unfolding alloc_inode create_manager
alloc_inode_test = refl

read_lem_example :
    (read small_fs (os_inode true false 0) (2 ∷ 3 ∷ [])
      ≡ done (
        moved (os_inode true false 0) (left small_fs (os_inode true false 0) 5),
        file_bytes small_fs (os_inode true false 0) (left small_fs (os_inode true false 0) 5),
      ))
    × (read_at small_fs 0 0 5
        ≡ done
            (file_bytes small_fs (os_inode true false 0) (left small_fs (os_inode true false 0) 5)))
read_lem_example =
    read_lem small_fs (os_inode true false 0) (2 ∷ 3 ∷ []) (omega arith)
      (omega arith, (omega arith, tt))

open_file_root_example : open_file any_bytes small_fs (47 ∷ []) 513 ≡ panic
unfolding dir
open_file_root_example = open_file_root any_bytes small_fs 1 513 refl

read_all_lem_example :
    read_all 2 small_fs (os_inode true false 0)
    ≡ done (
      moved (os_inode true false 0) (remaining small_fs (os_inode true false 0)),
      file_bytes small_fs (os_inode true false 0) (remaining small_fs (os_inode true false 0)),
    )
read_all_lem_example = read_all_lem small_fs (os_inode true false 0) 2 (omega arith) (omega arith)
