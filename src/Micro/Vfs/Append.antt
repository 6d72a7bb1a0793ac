-- ===== src/Micro/Vfs/Append.antt =====
-- An entry behind the last one of a directory.
use nimloth_os.Prelude.{
  ℕ, suc, ◌+◌, ◌-◌, ◌*◌, ◌/◌, ◌%◌, ◌^◌, ◌≤◌, ◌<◌, ◌≡◌, refl, ap, ◌∙◌, Bool, false, ◌&&◌, List, [],
  ◌∷◌, ◌++◌, length, take, get_or, ltb, leb, if◌then◌else◌, arith, subst, done, ◌>>=◌,
}
use nimloth_os.Micro.Layout.{Disk, DiskInode, data_blocks_of}
use nimloth_os.Micro.Layout.Data.{read_at, write_at}
use nimloth_os.Micro.Layout.Data.Read.{file_byte}
use nimloth_os.Micro.Layout.Data.Separate.{IsFile}
use nimloth_os.Micro.Layout.Data.Flat.{write_end, write_at_lem, read_at-write_at}
use nimloth_os.Micro.Layout.Dirent.{DirEntry, name_of, as_bytes, from_bytes-as_bytes}
use nimloth_os.Micro.Vfs.{read_entry, ls_loop}
use nimloth_os.Micro.Vfs.Entries.{
  resized, file_byte-resized, IsFile-resized, read_entry-same, ls_loop-same, ls_loop-snoc,
}

-- An entry is read back from the place where its bytes were written.
read_entry-written :
    (n : DiskInode) (disk : Disk) (c : ℕ) (e : DirEntry)
    → length e.name ≡ 28
    → e.inode_number < 2 ^ 32
    → read_at n disk (c * 32) 32 ≡ done (take 32 (as_bytes e))
    → read_entry n disk c ≡ done e
unfolding read_entry
read_entry-written n disk c e len small h =
    let (lb, back) = from_bytes-as_bytes e len small in
    let bytes = as_bytes e in
    let all : take 32 bytes ≡ bytes = subst (λ (k : ℕ). take k bytes ≡ bytes) lb (take_all bytes) in
    let z : c * 32 ≡ 32 * c = omega arith in
    let h' = subst (λ (k : ℕ). read_at n disk k 32 ≡ done (take 32 bytes)) z h in
    rw (h' ∙ ap done all, lb) (ap done back)
  where
    take_all : (xs : List ℕ) → take (length xs) xs ≡ xs
    take_all [] = refl
    take_all (x ∷ xs) = ap (λ (l : List ℕ). x ∷ l) (take_all xs)

-- What a write of an entry behind the last one gives.
unfoldable pub Appended : (n : DiskInode) (disk : Disk) (e : DirEntry) → Type 0
Appended n disk e =
    let n' = resized n (n.size + 32) in
    (disk' : Disk) × (write_at n' disk (n.size / 32 * 32) (as_bytes e) ≡ done (disk', 32))
    × ((j : ℕ) → j < n.size / 32 → read_entry n' disk' j ≡ read_entry n disk j)
    × (read_entry n' disk' (n.size / 32) ≡ done e)

pub appended :
    (n : DiskInode) (disk : Disk) (e : DirEntry)
    → n.size % 32 ≡ 0
    → 0 < n.size % 512
    → n.size ≤ 8467968
    → IsFile n disk (data_blocks_of n.size)
    → length e.name ≡ 28
    → e.inode_number < 2 ^ 32
    → Appended n disk e
unfolding data_blocks_of Appended
appended n disk e whole room bounded v len small =
    let n' = resized n (n.size + 32) in
    let c = n.size / 32 in
    let count = data_blocks_of n.size in
    let bytes = as_bytes e in
    let lb = (from_bytes-as_bytes e len small).0 in
    let ec : c * 32 ≡ n.size = omega (arith, whole) in
    let stop : write_end n' (c * 32) bytes - c * 32 ≡ 32 = omega (arith, lb, ec) in
    let v' = IsFile-resized n (n.size + 32) disk count v in
    let fits : n'.size ≤ 512 * count = omega (arith, whole, room, bounded) in
    let (disk', r, q, o) =
      (write_at_lem n' disk count (c * 32) bytes v' fits).0 (omega (arith, ec)) in
    let rt = read_at-write_at n' disk count (c * 32) bytes v' fits (omega (arith, ec)) in
    finish fits ec lb stop disk' r q rt
  where
    finish :
        n.size + 32 ≤ 512 * data_blocks_of n.size
        → n.size / 32 * 32 ≡ n.size
        → length (as_bytes e) ≡ 32
        → let n' = resized n (n.size + 32) in
          let stop = write_end n' (n.size / 32 * 32) (as_bytes e) in
          stop - n.size / 32 * 32 ≡ 32
          → (disk' : Disk)
          → write_at n' disk (n.size / 32 * 32) (as_bytes e) ≡ done (disk', stop - n.size / 32 * 32)
          → ((p : ℕ)
              → p < 512 * data_blocks_of n.size
              → file_byte n' disk' p ≡ (
                  if leb (n.size / 32 * 32) p && ltb p stop
                  then get_or (as_bytes e) (p - n.size / 32 * 32) 0
                  else file_byte n' disk p))
          → (write_at n' disk (n.size / 32 * 32) (as_bytes e) >>= λ w.
              read_at n' (w.0) (n.size / 32 * 32) (length (as_bytes e)))
            ≡ done (take (stop - n.size / 32 * 32) (as_bytes e))
          → Appended n disk e
    finish fits ec lb stop disk' r q rt =
        let n' = resized n (n.size + 32) in
        let c32 = n.size / 32 * 32 in
        let back = rw (r, stop, lb) at rt in
        (
          disk',
          r ∙ ap (λ (k : ℕ). done (disk', k)) stop,
          λ j l.
              read_entry-same n n' disk disk' j bounded (omega (arith, fits, v.bounded))
                (omega (arith, l, ec)) (omega (arith, l, ec))
                λ p k.
                  let outside : leb c32 p ≡ false = ground (arith, k, l, ec) in
                  let x = rw outside at (q p (omega (arith, k, l, ec, fits))) in
                  x ∙ file_byte-resized n (n.size + 32) disk p,
          read_entry-written n' disk' (n.size / 32) e len small back,
        )

-- The entries of the directory after one was appended.
pub appended-ls_loop :
    (is_utf8 : List ℕ → Bool) (n : DiskInode) (disk disk' : Disk) (names : List (List ℕ))
    (e : DirEntry) (name : List ℕ)
    → ls_loop is_utf8 n disk (n.size / 32) 0 ≡ done names
    → ((j : ℕ)
        → j < n.size / 32
        → read_entry (resized n (n.size + 32)) disk' j ≡ read_entry n disk j)
    → read_entry (resized n (n.size + 32)) disk' (n.size / 32) ≡ done e
    → name_of is_utf8 e ≡ done name
    → ls_loop is_utf8 (resized n (n.size + 32)) disk' ((n.size + 32) / 32) 0
      ≡ done (names ++ (name ∷ []))
appended-ls_loop is_utf8 n disk disk' names e name listed old new named =
    let n' = resized n (n.size + 32) in
    let one_more : suc (n.size / 32) ≡ (n.size + 32) / 32 = omega arith in
    let z : n.size / 32 ≡ 0 + n.size / 32 = omega arith in
    let before =
      ls_loop-same is_utf8 n n' disk disk' (n.size / 32) 0 λ j l. old j (omega (arith, l)) in
    subst (λ (k : ℕ). ls_loop is_utf8 n' disk' k 0 ≡ done (names ++ (name ∷ []))) one_more
      (ls_loop-snoc is_utf8 n' disk' (n.size / 32) 0 names e name (before ∙ listed)
        (subst (λ (k : ℕ). read_entry n' disk' k ≡ done e) z new) named)
