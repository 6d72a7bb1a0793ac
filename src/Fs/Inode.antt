-- ===== src/Fs/Inode.antt =====
-- os/src/fs/inode.rs: open files of the block file system, with an offset each.
pub mod Reading
use nimloth_os.Prelude.{
  ℕ, zero, suc, ◌+◌, ◌/◌, ◌%◌, ◌^◌, Bool, true, false, Option, none, some, List, [], ◌∷◌, ◌++◌,
  length, ◌==◌, if◌then◌else◌, Outcome, done, panic, assert, ◌>>=◌, ◌>>◌,
}
use nimloth_os.Micro.Layout.{file_type}
use nimloth_os.Micro.Mfs.{MicroFs}
use nimloth_os.Micro.Vfs.{read_at, write_at, clear, find, create_inode}

-- The inode is named by its number.
pub record OsInode : Type 0 where
  pub readable : Bool
  pub writable : Bool
  pub offset : ℕ
  pub inode : ℕ

abbrev pub os_inode : Bool → Bool → ℕ → OsInode
os_inode readable writable inode = record {
  readable = readable;
  writable = writable;
  offset = 0;
  inode = inode;
}

abbrev pub moved : OsInode → ℕ → OsInode
moved f k = record f { offset = f.offset + k }

-- `read` into buffers of these lengths: the bytes for them, one after the other.
unfoldable pub read : MicroFs → OsInode → List ℕ → Outcome (OsInode × List ℕ)
unfolding read_at
read fs f [] = done (f, [])
read fs f (len ∷ lens) = read_at fs f.inode f.offset len >>= λ bytes.
    if length bytes == 0
    then done (f, [])
    else (read fs (moved f (length bytes)) lens >>= λ r. done (r.0, bytes ++ r.1))

-- `write` of these buffers: the number of bytes.
unfoldable pub write : MicroFs → OsInode → List (List ℕ) → Outcome (MicroFs × OsInode × ℕ)
unfolding write_at
write fs f [] = done (fs, f, 0)
write fs f (bytes ∷ buffers) = do
  (fs, size) ← write_at fs f.inode f.offset bytes
  assert (size == length bytes)
  (fs, f, total) ← write fs (moved f size) buffers
  done (fs, f, size + total)

-- `read_all`, in at most so many rounds of 512 bytes.
unfoldable pub read_all : ℕ → MicroFs → OsInode → Outcome (OsInode × List ℕ)
unfolding read_at
read_all zero fs f = panic
read_all (suc rounds) fs f = read_at fs f.inode f.offset 512 >>= λ bytes.
    if length bytes == 0
    then done (f, [])
    else (read_all rounds fs (moved f (length bytes)) >>= λ r. done (r.0, bytes ++ r.1))

-- The flags of `OpenFlags`.
abbrev pub has_flag : ℕ → ℕ → Bool
has_flag flags k = flags / 2 ^ k % 2 == 1

unfoldable pub read_write : ℕ → Bool × Bool
read_write flags =
    if flags == 0 then (true, false) else if has_flag flags 0 then (false, true) else (true, true)

-- `split('/')` without the empty parts; `part` is the part so far, last byte first.
abbrev reversed_onto : List ℕ → List ℕ → List ℕ
reversed_onto [] acc = acc
reversed_onto (x ∷ xs) acc = reversed_onto xs (x ∷ acc)

abbrev add_part : List ℕ → List (List ℕ) → List (List ℕ)
add_part [] parts = parts
add_part (x ∷ xs) parts = reversed_onto (x ∷ xs) [] ∷ parts

unfoldable pub split_path : List ℕ → List ℕ → List (List ℕ)
split_path part [] = add_part part []
split_path part (b ∷ path) =
    let ended = split_path [] path in
    let longer = split_path (b ∷ part) path in if b == 47 then add_part part ended else longer

module _ (is_utf8 : List ℕ → Bool) where
  -- `ROOT_INODE` is inode 0.
  unfoldable pub open_file : MicroFs → List ℕ → ℕ → Outcome (MicroFs × Option OsInode)
  unfolding read_write split_path find clear create_inode
  open_file fs name flags =
      let (readable, writable) = read_write flags in
      find is_utf8 fs 0 (split_path [] name) >>= λ found. elim (has_flag flags 9) [
        | true ↦ elim found [
          | some i ↦ clear fs i >>= λ fs. done (fs, some (os_inode readable writable i))
          | none ↦ create_inode is_utf8 fs 0 name file_type >>= λ r. elim (r.1) [
            | none ↦ done (r.0, none)
            | some i ↦ done (r.0, some (os_inode readable writable i))
          ]
        ]
        | false ↦ elim found [
          | none ↦ done (fs, none)
          | some i ↦ (if has_flag flags 10 then clear fs i else done fs) >>= λ fs.
              done (fs, some (os_inode readable writable i))
        ]
      ]
