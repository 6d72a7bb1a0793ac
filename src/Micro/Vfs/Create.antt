-- ===== src/Micro/Vfs/Create.antt =====
-- A new name in a directory.
use nimloth_os.Prelude.{
  ℕ, ◌+◌, ◌-◌, ◌*◌, ◌/◌, ◌%◌, ◌^◌, ◌≤◌, ◌<◌, ◌≡◌, ◌≢◌, refl, sym, ap, ◌∙◌, Bool, ==_refl, true,
  false, Option, none, some, List, [], ◌∷◌, ◌++◌, length, length-append, length-replicate,
  replicate, ltb, leb, arith, subst, Outcome, done, panic, unwrap,
}
use nimloth_os.Micro.Layout.{Disk, DiskInode, DiskInodeType, initialize, dir, file, data_blocks_of}
use nimloth_os.Micro.Layout.Grow.Same.{increase_size-same}
use nimloth_os.Micro.Layout.Data.{write_at}
use nimloth_os.Micro.Layout.Data.Write.{==_ne}
use nimloth_os.Micro.Layout.Data.Separate.{IsFile}
use nimloth_os.Micro.Layout.Dirent.{DirEntry, NonZero, new_entry, as_bytes, name_of-new_entry}
use nimloth_os.Micro.Bitmap.{alloc}
use nimloth_os.Micro.Mfs.{MicroFs, alloc_inode}
use nimloth_os.Micro.Vfs.{
  ls_loop, ls, find_inode_id, create_inode, set_inode, alloc_blocks, increase_size,
}
use nimloth_os.Micro.Vfs.Directory.{
  dir-file, position, Answer, hit, miss, bind_done, find_inode_id-ls,
}
use nimloth_os.Micro.Vfs.Entries.{resized}
use nimloth_os.Micro.Vfs.Append.{Appended, appended, appended-ls_loop}

alloc_inode-rest :
    (fs fs1 : MicroFs) (id : ℕ)
    → alloc_inode fs ≡ done (fs1, id)
    → (fs1.inodes ≡ fs.inodes) × (fs1.disk ≡ fs.disk)
unfolding alloc_inode
alloc_inode-rest fs fs1 id h =
    let (bit, e, g) = bind_done (unwrap (alloc fs.manager.inode_bitmap fs.bits).1) _ (fs1, id) h in
    let x : record fs { bits = (alloc fs.manager.inode_bitmap fs.bits).0 } ≡ fs1 =
      ap (λ (r : Outcome (MicroFs × ℕ)). fs_of r) g in
    (ap (λ (f : MicroFs). f.inodes) (sym x), ap (λ (f : MicroFs). f.disk) (sym x))
  where
    fs_of : Outcome (MicroFs × ℕ) → MicroFs
    fs_of (done r) = r.0
    fs_of panic = fs

new_entry-fields :
    (name : List ℕ) (id : ℕ) (e : DirEntry)
    → length name ≤ 27
    → new_entry name id ≡ done e
    → (length e.name ≡ 28) × (e.inode_number ≡ id)
unfolding new_entry
new_entry-fields name id e l h =
    let a : leb (length name) 28 ≡ true = ground (arith, l) in
    let x : record { name = name ++ replicate (28 - length name) 0; inode_number = id } ≡ e =
      ap entry_of (rw a at h) in
    (
      ap (λ (d : DirEntry). length d.name) (sym x)
          ∙ (length-append name (replicate (28 - length name) 0)
              ∙ (rw (length-replicate {A = ℕ} (28 - length name) 0) (omega (arith, l)))),
      ap (λ (d : DirEntry). d.inode_number) (sym x),
    )
  where
    entry_of : Outcome DirEntry → DirEntry
    entry_of (done d) = d
    entry_of panic = e

-- A directory that `ls` can list, with room for one more entry in its last block.
pub record HasRoom (is_utf8 : List ℕ → Bool) (fs : MicroFs) (parent : ℕ) (names : List (List ℕ))
    : Type 0 where
  pub is_dir : dir (fs.inodes parent) ≡ true
  pub whole : (fs.inodes parent).size % 32 ≡ 0
  pub room : 0 < (fs.inodes parent).size % 512
  pub bounded : (fs.inodes parent).size ≤ 8467968
  pub blocks : IsFile (fs.inodes parent) fs.disk (data_blocks_of (fs.inodes parent).size)
  pub listed : ls is_utf8 fs parent ≡ done names

-- A name that fits into an entry and is read back as it is.
pub record IsName (is_utf8 : List ℕ → Bool) (name : List ℕ) : Type 0 where
  pub non_zero : NonZero name
  pub utf8 : is_utf8 name ≡ true
  pub short : length name ≤ 27

pub not_found :
    {n : DiskInode} {disk : Disk} {r : Outcome (Option ℕ)} → Answer n disk 0 none r → r ≡ done none
not_found miss = refl

found_number :
    {n : DiskInode} {disk : Disk} {j : ℕ} {r : Outcome (Option ℕ)}
    → Answer n disk 0 (some j) r
    → (k : ℕ) × (r ≡ done (some k))
found_number (hit {e = e} h) = (e.inode_number, refl)

-- The new size of the directory takes no block.
grown :
    (fs : MicroFs) (n : DiskInode)
    → n.size % 32 ≡ 0
    → 0 < n.size % 512
    → n.size ≤ 8467968
    → increase_size fs n ((n.size / 32 + 1) * 32 % 2 ^ 32)
      ≡ done (record fs { disk = fs.disk }, resized n (n.size + 32))
unfolding increase_size alloc_blocks data_blocks_of
grown fs n whole room bounded =
    let z : (n.size / 32 + 1) * 32 % 4294967296 ≡ n.size + 32 = omega (arith, whole, bounded) in
    let a : ltb (n.size + 32) n.size ≡ false = ground arith in
    let (q, r) =
      increase_size-same n (n.size + 32) fs.disk (omega arith) (omega (arith, whole, room, bounded))
        (omega (arith, bounded)) in
    rw (z, a, q, r) refl

-- What is left of the state when every step has answered.
abbrev created : MicroFs → ℕ → ℕ → DiskInodeType → DiskInode → Disk → MicroFs
created fs1 id parent t n disk' =
    set_inode (record (set_inode fs1 id (initialize t)) { disk = disk' }) parent n

create_inode-steps :
    (is_utf8 : List ℕ → Bool) (fs fs1 : MicroFs) (parent id : ℕ) (name : List ℕ) (t : DiskInodeType)
    (n : DiskInode) (e : DirEntry) (disk' : Disk)
    → find_inode_id is_utf8 (fs.inodes parent) fs.disk name ≡ done none
    → alloc_inode fs ≡ done (fs1, id)
    → (set_inode fs1 id (initialize t)).inodes parent ≡ n
    → n.size % 32 ≡ 0
    → 0 < n.size % 512
    → n.size ≤ 8467968
    → new_entry name id ≡ done e
    → write_at (resized n (n.size + 32)) fs1.disk (n.size / 32 * 32) (as_bytes e) ≡ done (disk', 32)
    → create_inode is_utf8 fs parent name t
      ≡ done (created fs1 id parent t (resized n (n.size + 32)) disk', some id)
unfolding create_inode
create_inode-steps is_utf8 fs fs1 parent id name t n e disk' f al pn whole room bounded re wr =
    rw (f, al, pn, grown (set_inode fs1 id (initialize t)) n whole room bounded, re, wr) refl

created-ls :
    (is_utf8 : List ℕ → Bool) (fs1 : MicroFs) (parent id : ℕ) (t : DiskInodeType) (n : DiskInode)
    (disk' : Disk) (names : List (List ℕ))
    → file n ≡ false
    → ls_loop is_utf8 n disk' (n.size / 32) 0 ≡ done names
    → ls is_utf8 (created fs1 id parent t n disk') parent ≡ done names
unfolding ls
created-ls is_utf8 fs1 parent id t n disk' names f h = rw (==_refl parent, f) h

ls-ls_loop :
    (is_utf8 : List ℕ → Bool) (fs : MicroFs) (i : ℕ) (names : List (List ℕ))
    → file (fs.inodes i) ≡ false
    → ls is_utf8 fs i ≡ done names
    → ls_loop is_utf8 (fs.inodes i) fs.disk ((fs.inodes i).size / 32) 0 ≡ done names
unfolding ls
ls-ls_loop is_utf8 fs i names f h = rw f at h

file-resized : (n : DiskInode) (s : ℕ) → file (resized n s) ≡ file n
unfolding file
file-resized n s = refl

-- `create_inode` where `alloc_inode` gives the number `id`.
pub create_inode-created :
    (is_utf8 : List ℕ → Bool) (fs : MicroFs) (parent : ℕ) (name : List ℕ) (t : DiskInodeType)
    (names : List (List ℕ))
    → HasRoom is_utf8 fs parent names
    → IsName is_utf8 name
    → ((j : ℕ)
        → position names name ≡ some j
        → create_inode is_utf8 fs parent name t ≡ done (fs, none))
      × ((fs1 : MicroFs) (id : ℕ)
          → position names name ≡ none
          → alloc_inode fs ≡ done (fs1, id)
          → id ≢ parent
          → id < 2 ^ 32
          → (fs' : MicroFs) × (create_inode is_utf8 fs parent name t ≡ done (fs', some id))
            × (ls is_utf8 fs' parent ≡ done (names ++ (name ∷ [])))
            × (fs'.inodes id ≡ initialize t)
            × ((i : ℕ) → i ≢ parent → i ≢ id → fs'.inodes i ≡ fs.inodes i))
unfolding create_inode Appended
create_inode-created is_utf8 fs parent name t names h w = (
  λ j p. let (k, f) = found_number (subst Searched p searched) in rw f refl,
  λ fs1 id p al ne small.
      let (ei, ed) = alloc_inode-rest fs fs1 id al in
      let (e, re, named) =
        bind_done (new_entry name id) _ name
          ((name_of-new_entry is_utf8 name id w.non_zero w.utf8).0 w.short) in
      let (len, num) = new_entry-fields name id e w.short re in
      let (disk', wr, old, new) =
        appended n fs.disk e h.whole h.room h.bounded h.blocks len (omega (arith, num, small)) in
      let pn : (set_inode fs1 id (initialize t)).inodes parent ≡ n =
        rw (==_ne id parent ne) (ap (λ (f : ℕ → DiskInode). f parent) ei) in
      let n' = resized n (n.size + 32) in
      let wr' =
        subst (λ (d : Disk). write_at n' d (n.size / 32 * 32) (as_bytes e) ≡ done (disk', 32))
          (sym ed) wr in
      let listed = ls-ls_loop is_utf8 fs parent names (dir-file n h.is_dir) h.listed in
      (
        created fs1 id parent t n' disk',
        create_inode-steps is_utf8 fs fs1 parent id name t n e disk'
            (not_found (subst Searched p searched)) al pn h.whole h.room h.bounded re wr',
        created-ls is_utf8 fs1 parent id t n' disk' (names ++ (name ∷ []))
            (file-resized n (n.size + 32) ∙ dir-file n h.is_dir)
            (appended-ls_loop is_utf8 n fs.disk disk' names e name listed old new named),
        (rw (==_ne parent id (λ q. ne (sym q)), ==_refl id) refl),
        λ i a b.
            rw (==_ne parent i (λ q. a (sym q)), ==_ne id i (λ q. b (sym q)))
              (ap (λ (f : ℕ → DiskInode). f i) ei),
      ),
)
  where
    n : DiskInode
    n = fs.inodes parent

    Searched : Option ℕ → Type 0
    Searched o =
        Answer (fs.inodes parent) fs.disk 0 o
          (find_inode_id is_utf8 (fs.inodes parent) fs.disk name)

    searched : Searched (position names name)
    searched = find_inode_id-ls is_utf8 fs parent name names h.is_dir h.listed
