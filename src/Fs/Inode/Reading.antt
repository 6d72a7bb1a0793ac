-- ===== src/Fs/Inode/Reading.antt =====
-- Reads of open files.
use nimloth_os.Prelude.{
  ◌*◌, ℕ, zero, suc, ◌+◌, ◌-◌, ◌<◌, ◌≤◌, ◌≡◌, refl, ap, ap₂, ◌∙◌, inl, inr, min, ◌||◌, Bool,
  Bool-cases, ==_eq, true, some, List, [], ◌∷◌, ◌++◌, length, arith, ◌==◌, if◌then◌else◌, done,
  panic, Outcome,
}
use nimloth_os.Micro.Layout.{file, dir}
use nimloth_os.Micro.Layout.Data.{bytes_from}
use nimloth_os.Micro.Layout.Data.Read.{file_byte, read_at_lem, bytes_from-append}
use nimloth_os.Micro.Mfs.{MicroFs}
use nimloth_os.Micro.Vfs.{read_at, clear, find}
use nimloth_os.Micro.Vfs.Directory.{dir-file}
use nimloth_os.Fs.Inode.{
  OsInode, os_inode, read_write, moved, read, read_all, open_file, split_path, has_flag,
}

abbrev pub total : List ℕ → ℕ
total [] = 0
total (len ∷ lens) = len + total lens

abbrev pub AllPositive : List ℕ → Type 0
AllPositive [] = Unit {0}
AllPositive (len ∷ lens) = (0 < len) × AllPositive lens

length-bytes_from : (f : ℕ → ℕ) (i n : ℕ) → length (bytes_from f i n) ≡ n
length-bytes_from f i zero = refl
length-bytes_from f i (suc n) = ap suc (length-bytes_from f (suc i) n)

abbrev pub left : MicroFs → OsInode → ℕ → ℕ
left fs f len = min (f.offset + len) (fs.inodes f.inode).size - f.offset

abbrev pub file_bytes : MicroFs → OsInode → ℕ → List ℕ
file_bytes fs f k = bytes_from (file_byte (fs.inodes f.inode) fs.disk) f.offset k

read_at-left :
    (fs : MicroFs) (f : OsInode) (len : ℕ)
    → (fs.inodes f.inode).size ≤ 1082209792
    → read_at fs f.inode f.offset len ≡ done (file_bytes fs f (left fs f len))
unfolding read_at
read_at-left fs f len h = read_at_lem (fs.inodes f.inode) fs.disk f.offset len h

-- A read after a read.
joined_reads :
    (fs : MicroFs) (f : OsInode) (m k : ℕ)
    → let one : Outcome (OsInode × List ℕ) = done (moved f (m + k), file_bytes fs f (m + k)) in
      done (moved (moved f m) k, file_bytes fs f m ++ file_bytes fs (moved f m) k) ≡ one
joined_reads fs f m k =
    let content = file_byte (fs.inodes f.inode) fs.disk in
    let place : f.offset + m + k ≡ f.offset + (m + k) = omega arith in
    ap₂ (λ (o : ℕ) (bytes : List ℕ). done (record f { offset = o }, bytes)) place
      (bytes_from-append content f.offset m k)

-- In a file of at most 1082209792 bytes, `read` into several buffers, none of them empty, gives what one read into a buffer of their total
-- length would give: the bytes of the file from the offset on, as many as the buffers take and the
-- file has. The offset moves by that number, and nothing panics.
pub read_lem :
    (fs : MicroFs) (f : OsInode) (lens : List ℕ)
    → (fs.inodes f.inode).size ≤ 1082209792
    → AllPositive lens
    → (read fs f lens
        ≡ done (moved f (left fs f (total lens)), file_bytes fs f (left fs f (total lens))))
      × (read_at fs f.inode f.offset (total lens) ≡ done (file_bytes fs f (left fs f (total lens))))
unfolding read
read_lem fs f lens h p = (buffers lens f h p, read_at-left fs f (total lens) h)
  where
    buffers :
        (lens : List ℕ) (f : OsInode)
        → (fs.inodes f.inode).size ≤ 1082209792
        → AllPositive lens
        → read fs f lens
          ≡ done (moved f (left fs f (total lens)), file_bytes fs f (left fs f (total lens)))
    buffers [] f h p =
        let z : left fs f 0 ≡ 0 = omega arith in
        let o : f.offset + 0 ≡ f.offset = omega arith in rw (z, o) refl
    buffers (len ∷ lens) f h (q, p) =
        let m = left fs f len in
        let k = left fs (moved f m) (total lens) in
        let content = file_byte (fs.inodes f.inode) fs.disk in
        let size : length (file_bytes fs f m) ≡ m = length-bytes_from content f.offset m in
        rw (read_at-left fs f len h, size)
          (elim (Bool-cases (m == 0)) [
            | inl e ↦
                let z : m ≡ 0 = ==_eq m 0 e in
                let all : left fs f (len + total lens) ≡ 0 = omega (arith, z, q) in
                let o : f.offset + 0 ≡ f.offset = omega arith in rw (e, all, o) refl
            | inr e ↦
                let some_left : 0 < m = ground (arith, e) in
                let sum : m + k ≡ left fs f (len + total lens) = omega (arith, some_left) in
                rw (e, buffers lens (moved f m) h p)
                  (joined_reads fs f m k ∙ ap (λ (j : ℕ). done (moved f j, file_bytes fs f j)) sum)
          ])

-- The bytes of the file from the offset on.
abbrev pub remaining : MicroFs → OsInode → ℕ
remaining fs f = (fs.inodes f.inode).size - f.offset

-- In a file of at most 1082209792 bytes, `read_all` gives all bytes of the file from the offset on, in any number of rounds that is more
-- than the pieces of 512 bytes that these are, and moves the offset to the end of the file.
pub read_all_lem :
    (fs : MicroFs) (f : OsInode) (rounds : ℕ)
    → (fs.inodes f.inode).size ≤ 1082209792
    → remaining fs f < 512 * rounds - 511
    → read_all rounds fs f ≡ done (moved f (remaining fs f), file_bytes fs f (remaining fs f))
unfolding read_all
read_all_lem fs f zero h r = absurd (omega (arith, r))
read_all_lem fs f (suc rounds) h r =
    let m = left fs f 512 in
    let k = remaining fs (moved f m) in
    let content = file_byte (fs.inodes f.inode) fs.disk in
    let size : length (file_bytes fs f m) ≡ m = length-bytes_from content f.offset m in
    rw (read_at-left fs f 512 h, size)
      (elim (Bool-cases (m == 0)) [
        | inl e ↦
            let z : m ≡ 0 = ==_eq m 0 e in
            let all : remaining fs f ≡ 0 = omega (arith, z) in
            let o : f.offset + 0 ≡ f.offset = omega arith in rw (e, all, o) refl
        | inr e ↦
            let some_left : 0 < m = ground (arith, e) in
            let sum : m + k ≡ remaining fs f = omega (arith, some_left) in
            let fewer : k < 512 * rounds - 511 = omega (arith, some_left, r) in
            rw (e, read_all_lem fs (moved f m) rounds h fewer)
              (joined_reads fs f m k ∙ ap (λ (j : ℕ). done (moved f j, file_bytes fs f j)) sum)
      ])

abbrev pub slashes : ℕ → List ℕ
slashes zero = []
slashes (suc k) = 47 ∷ slashes k

no_parts : (k : ℕ) → split_path [] (slashes k) ≡ []
unfolding split_path
no_parts zero = refl
no_parts (suc k) = no_parts k

-- `open_file` of a path of slashes, or of no byte, which names the root directory: with the flag
-- CREATE or TRUNC it panics, since `clear` does not take a directory, and else it opens the
-- directory, with the access that the flags name.
pub open_file_root :
    (is_utf8 : List ℕ → Bool) (fs : MicroFs) (k flags : ℕ)
    → dir (fs.inodes 0) ≡ true
    → open_file is_utf8 fs (slashes k) flags ≡ (
        if has_flag flags 9 || has_flag flags 10
        then panic
        else done (fs, some (os_inode (read_write flags).0 (read_write flags).1 0)))
unfolding open_file find clear dir file
open_file_root is_utf8 fs k flags d =
    let n = dir-file (fs.inodes 0) d in
    elim (Bool-cases (has_flag flags 9)) [
      | inl a ↦ rw (no_parts k, a, n) refl
      | inr a ↦ elim (Bool-cases (has_flag flags 10)) [
        | inl b ↦ rw (no_parts k, a, b, n) refl
        | inr b ↦ rw (no_parts k, a, b) refl
      ]
    ]
