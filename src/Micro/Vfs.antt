-- ===== src/Micro/Vfs.antt =====
-- components/src/micro_fs/vfs.rs: the operations on files and directories. An inode is named by its
-- number, and stands in the inode area.
pub mod Directory
pub mod Entries
pub mod Append
pub mod Create
pub mod Names
use nimloth_os.Prelude.{
  ℕ, zero, suc, ◌+◌, ◌-◌, ◌*◌, ◌/◌, ◌%◌, ◌^◌, Bool, true, false, not, ◌&&◌, Option, none, some,
  List, [], ◌∷◌, ◌++◌, length, ◌==◌, leb, ltb, if◌then◌else◌, Outcome, done, panic, assert, unwrap,
  ◌>>=◌, ◌>>◌,
}
use nimloth_os.Micro.Layout.{
  Disk, DiskInode, DiskInodeType, initialize, dir, file, blocks_num_needed, total_blocks,
}
use nimloth_os.Micro.Layout.Grow
use nimloth_os.Micro.Layout.Clear.{clear_size}
use nimloth_os.Micro.Layout.Data
use nimloth_os.Micro.Layout.Dirent.{DirEntry, dirent_sz, new_entry, name_of, as_bytes, from_bytes}
use nimloth_os.Micro.Mfs.{MicroFs, alloc_inode, alloc_data, dealloc_data}

abbrev pub set_inode : MicroFs → ℕ → DiskInode → MicroFs
set_inode fs i n = record fs { inodes = λ j. if i == j then n else fs.inodes j }

abbrev pub same_bytes : List ℕ → List ℕ → Bool
same_bytes [] [] = true
same_bytes [] (y ∷ ys) = false
same_bytes (x ∷ xs) [] = false
same_bytes (x ∷ xs) (y ∷ ys) = (x == y) && same_bytes xs ys

-- So many calls of `alloc_data`, in order.
unfoldable pub alloc_blocks : ℕ → MicroFs → Outcome (MicroFs × List ℕ)
unfolding alloc_data
alloc_blocks zero fs = done (fs, [])
alloc_blocks (suc k) fs = do
  (fs, b) ← alloc_data fs
  (fs, bs) ← alloc_blocks k fs
  done (fs, b ∷ bs)

unfoldable pub increase_size : MicroFs → DiskInode → ℕ → Outcome (MicroFs × DiskInode)
unfolding alloc_blocks blocks_num_needed Grow.increase_size
increase_size fs n new_size = if ltb new_size n.size then done (fs, n) else (do
  needed ← blocks_num_needed n new_size
  (fs, blocks) ← alloc_blocks needed fs
  g ← Grow.increase_size n new_size blocks fs.disk
  done (record fs { disk = g.disk }, g.inode))

unfoldable pub dealloc_blocks : MicroFs → List ℕ → Outcome MicroFs
unfolding dealloc_data
dealloc_blocks fs [] = done fs
dealloc_blocks fs (b ∷ bs) = dealloc_data fs b >>= λ fs. dealloc_blocks fs bs

unfoldable pub clear : MicroFs → ℕ → Outcome MicroFs
unfolding file clear_size total_blocks dealloc_blocks
clear fs i =
    let n = fs.inodes i in
    do
      assert (file n)
      (n', freed) ← clear_size n fs.disk
      assert (length freed == total_blocks n.size)
      dealloc_blocks (set_inode fs i n') freed

unfoldable pub read_at : MicroFs → ℕ → ℕ → ℕ → Outcome (List ℕ)
unfolding Data.read_at
read_at fs i offset len = Data.read_at (fs.inodes i) fs.disk offset len

unfoldable pub write_at : MicroFs → ℕ → ℕ → List ℕ → Outcome (MicroFs × ℕ)
unfolding file increase_size Data.write_at
write_at fs i offset bytes = do
  assert (file (fs.inodes i))
  (fs, n) ← increase_size fs (fs.inodes i) ((offset + length bytes) % 2 ^ 32)
  (disk, size) ← Data.write_at n fs.disk offset bytes
  done (set_inode (record fs { disk = disk }) i n, size)

-- An entry of a directory, read into 32 bytes.
unfoldable pub read_entry : DiskInode → Disk → ℕ → Outcome DirEntry
unfolding Data.read_at from_bytes
read_entry n disk i = do
  bytes ← Data.read_at n disk (dirent_sz * i) dirent_sz
  assert (length bytes == dirent_sz)
  done (from_bytes bytes)

module _ (is_utf8 : List ℕ → Bool) where
  -- The loop of `find_inode_id` over the entries from `i` on.
  unfoldable pub find_loop : DiskInode → Disk → List ℕ → ℕ → ℕ → Outcome (Option ℕ)
  unfolding read_entry name_of
  find_loop n disk name zero i = done none
  find_loop n disk name (suc k) i = read_entry n disk i >>= λ e. name_of is_utf8 e >>= λ found.
      if same_bytes found name then done (some e.inode_number) else find_loop n disk name k (suc i)

  unfoldable pub find_inode_id : DiskInode → Disk → List ℕ → Outcome (Option ℕ)
  unfolding dir find_loop
  find_inode_id n disk name = assert (dir n) >> find_loop n disk name (n.size / dirent_sz) 0

  -- The loop of `find` over the parts of a path that are not empty.
  unfoldable pub find : MicroFs → ℕ → List (List ℕ) → Outcome (Option ℕ)
  unfolding file find_inode_id
  find fs i [] = done (some i)
  find fs i (name ∷ path) =
      (if file (fs.inodes i) then done none else find_inode_id (fs.inodes i) fs.disk name)
      >>= λ found. elim found [ none ↦ done none | some j ↦ find fs j path ]

  unfoldable pub ls_loop : DiskInode → Disk → ℕ → ℕ → Outcome (List (List ℕ))
  unfolding read_entry name_of
  ls_loop n disk zero i = done []
  ls_loop n disk (suc k) i = do
    e ← read_entry n disk i
    name ← name_of is_utf8 e
    names ← ls_loop n disk k (suc i)
    done (name ∷ names)

  unfoldable pub ls : MicroFs → ℕ → Outcome (List (List ℕ))
  unfolding file ls_loop
  ls fs i =
      let n = fs.inodes i in if file n then done [] else ls_loop n fs.disk (n.size / dirent_sz) 0

  -- The new inode's number, or none where the directory has the name.
  unfoldable pub create_inode : MicroFs → ℕ → List ℕ → DiskInodeType → Outcome (MicroFs × Option ℕ)
  unfolding find_inode_id alloc_inode initialize increase_size new_entry as_bytes Data.write_at
  create_inode fs parent name inode_type =
      find_inode_id (fs.inodes parent) fs.disk name >>= λ known. elim known [
        | some _ ↦ done (fs, none)
        | none ↦ do
          (fs, id) ← alloc_inode fs
          let fs = set_inode fs id (initialize inode_type)
          let n = fs.inodes parent
          let count = n.size / dirent_sz
          (fs, n) ← increase_size fs n ((count + 1) * dirent_sz % 2 ^ 32)
          e ← new_entry name id
          (disk, _) ← Data.write_at n fs.disk (count * dirent_sz) (as_bytes e)
          done (set_inode (record fs { disk = disk }) parent n, some id)
      ]
