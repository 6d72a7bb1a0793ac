-- ===== src/Micro/Vfs/Entries.antt =====
-- The entries of a directory under a change of its inode and its blocks.
use nimloth_os.Prelude.{
  ℕ, zero, suc, ◌+◌, ◌-◌, ◌*◌, ◌≤◌, ◌<◌, ◌≡◌, refl, sym, ap, ◌∙◌, min, Bool, List, [], ◌∷◌, ◌++◌,
  arith, subst, done,
}
use nimloth_os.Micro.Layout.{Disk, DiskInode, block_id}
use nimloth_os.Micro.Layout.Data.{read_at, bytes_from}
use nimloth_os.Micro.Layout.Data.Read.{file_byte, read_at_lem, bytes_from-ext}
use nimloth_os.Micro.Layout.Data.Separate.{IsFile}
use nimloth_os.Micro.Layout.Dirent.{DirEntry, name_of}
use nimloth_os.Micro.Vfs.{read_entry, ls_loop}
use nimloth_os.Micro.Vfs.Directory.{bind_done}

-- The inode with another size.
abbrev pub resized : DiskInode → ℕ → DiskInode
resized n s = record n { size = s }

pub file_byte-resized :
    (n : DiskInode) (s : ℕ) (disk : Disk) (p : ℕ)
    → file_byte (resized n s) disk p ≡ file_byte n disk p
unfolding block_id
file_byte-resized n s disk p = refl

pub IsFile-resized :
    (n : DiskInode) (s : ℕ) (disk : Disk) (count : ℕ)
    → IsFile n disk count
    → IsFile (resized n s) disk count
unfolding block_id
IsFile-resized n s disk count v = record {
  bounded = v.bounded;
  distinct = v.distinct;
  apart = v.apart;
}

-- Entries that lie in both files and have the same bytes are the same.
pub read_entry-same :
    (n n' : DiskInode) (disk disk' : Disk) (j : ℕ)
    → n.size ≤ 8467968
    → n'.size ≤ 8467968
    → 32 * j + 32 ≤ n.size
    → 32 * j + 32 ≤ n'.size
    → ((p : ℕ) → p < 32 * j + 32 → file_byte n' disk' p ≡ file_byte n disk p)
    → read_entry n' disk' j ≡ read_entry n disk j
unfolding read_entry
read_entry-same n n' disk disk' j m m' l l' h =
    let a : min (32 * j + 32) n.size - 32 * j ≡ 32 = omega (arith, l) in
    let b : min (32 * j + 32) n'.size - 32 * j ≡ 32 = omega (arith, l') in
    let same =
      bytes_from-ext (file_byte n' disk') (file_byte n disk) (32 * j) (32 * j) 32
        λ i k. h (32 * j + i) (omega (arith, k)) in
    let x =
      subst
        (λ (k : ℕ).
          read_at n' disk' (32 * j) 32 ≡ done (bytes_from (file_byte n' disk') (32 * j) k))
        b (read_at_lem n' disk' (32 * j) 32 (omega (arith, m'))) in
    let y =
      subst
        (λ (k : ℕ). read_at n disk (32 * j) 32 ≡ done (bytes_from (file_byte n disk) (32 * j) k)) a
        (read_at_lem n disk (32 * j) 32 (omega (arith, m))) in
    let read : read_at n' disk' (32 * j) 32 ≡ read_at n disk (32 * j) 32 =
      x ∙ ap done same ∙ sym y in
    rw read refl

module _ (is_utf8 : List ℕ → Bool) where
  pub ls_loop-same :
      (n n' : DiskInode) (disk disk' : Disk) (k i : ℕ)
      → ((j : ℕ) → j < i + k → read_entry n' disk' j ≡ read_entry n disk j)
      → ls_loop is_utf8 n' disk' k i ≡ ls_loop is_utf8 n disk k i
  unfolding ls_loop
  ls_loop-same n n' disk disk' zero i h = refl
  ls_loop-same n n' disk disk' (suc k) i h =
      rw (h i (omega arith), ls_loop-same n n' disk disk' k (suc i) λ j l. h j (omega (arith, l)))
        refl

  pub ls_loop-snoc :
      (n : DiskInode) (disk : Disk) (k i : ℕ) (names : List (List ℕ)) (e : DirEntry) (name : List ℕ)
      → ls_loop is_utf8 n disk k i ≡ done names
      → read_entry n disk (i + k) ≡ done e
      → name_of is_utf8 e ≡ done name
      → ls_loop is_utf8 n disk (suc k) i ≡ done (names ++ (name ∷ []))
  unfolding ls_loop
  ls_loop-snoc n disk zero i names e name h r q =
      let z : i + 0 ≡ i = omega arith in
      let r' : read_entry n disk i ≡ done e = rw z at r in
      let s : [] ≡ names = cc h in rw (r', q, ← s) refl
  ls_loop-snoc n disk (suc k) i names e name h r q =
      let (e1, r1, h1) = bind_done (read_entry n disk i) _ names h in
      let (name1, q1, h2) = bind_done (name_of is_utf8 e1) _ names h1 in
      let (rest, l1, h3) = bind_done (ls_loop is_utf8 n disk k (suc i)) _ names h2 in
      let s : name1 ∷ rest ≡ names = cc h3 in
      let z : i + suc k ≡ suc i + k = omega arith in
      let ih = ls_loop-snoc n disk k (suc i) rest e name l1 (rw z at r) q in
      rw (r1, q1, ih, ← s) refl
