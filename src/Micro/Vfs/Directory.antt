-- ===== src/Micro/Vfs/Directory.antt =====
-- Directories as lists of names.
use nimloth_os.Prelude.{
  ℕ, zero, suc, ◌+◌, ◌/◌, ◌≡◌, refl, inl, inr, Bool, Bool-cases, true, false, Option, none, some,
  List, [], ◌∷◌, if◌then◌else◌, arith, subst, Outcome, done, panic, ◌>>=◌,
}
use nimloth_os.Micro.Layout.{Disk, DiskInode, DiskInodeType, dir_type, file_type, dir, file}
use nimloth_os.Micro.Layout.Dirent.{DirEntry, name_of}
use nimloth_os.Micro.Mfs.{MicroFs}
use nimloth_os.Micro.Vfs.{find_loop, find_inode_id, ls_loop, ls, same_bytes, read_entry}

-- The first position of a name in a list.
abbrev pub position : List (List ℕ) → List ℕ → Option ℕ
position [] name = none
position (x ∷ xs) name =
    let rest = position xs name in
    if same_bytes x name then some 0 else elim rest [ none ↦ none | some j ↦ some (suc j) ]

-- The answer of a search against the names of the entries from `i` on.
pub data Answer (n : DiskInode) (disk : Disk) (i : ℕ) : Option ℕ → Outcome (Option ℕ) → Type 0 where
  hit :
      {j : ℕ} {e : DirEntry}
      → read_entry n disk (i + j) ≡ done e
      → Answer n disk i (some j) (done (some e.inode_number))
  miss : Answer n disk i none (done none)

pub bind_done {ℓ κ} :
    {A : Type ℓ} {B : Type κ} (r : Outcome A) (f : A → Outcome B) (b : B)
    → (r >>= f) ≡ done b
    → (a : A) × (r ≡ done a) × (f a ≡ done b)
bind_done (done a) f b h = (a, refl, h)
bind_done panic f b h = cc h

module _ (is_utf8 : List ℕ → Bool) (n : DiskInode) (disk : Disk) (name : List ℕ) where
  later :
      (i : ℕ) (found : Option ℕ) (r : Outcome (Option ℕ))
      → Answer n disk (suc i) found r
      → Answer n disk i (elim found [ none ↦ none | some j ↦ some (suc j) ]) r
  later i none _ miss = miss
  later i (some j) _ (hit {e = e} h) =
      let s : suc i + j ≡ i + suc j = omega arith in hit {e = e} (rw s at h)

  find_loop-Answer :
      (k i : ℕ) (names : List (List ℕ))
      → ls_loop is_utf8 n disk k i ≡ done names
      → Answer n disk i (position names name) (find_loop is_utf8 n disk name k i)
  unfolding ls_loop find_loop
  find_loop-Answer zero i names h =
      let e : [] ≡ names = cc h in
      subst (λ (l : List (List ℕ)). Answer n disk i (position l name) (done none)) e miss
  find_loop-Answer (suc k) i names h =
      let (e, re, h1) = bind_done (read_entry n disk i) _ names h in
      let (found, rf, h2) = bind_done (name_of is_utf8 e) _ names h1 in
      let (rest, rr, h3) = bind_done (ls_loop is_utf8 n disk k (suc i)) _ names h2 in
      let s : found ∷ rest ≡ names = cc h3 in
      let ih = find_loop-Answer k (suc i) rest rr in
      subst
        (λ (l : List (List ℕ)).
          Answer n disk i (position l name) (find_loop is_utf8 n disk name (suc k) i))
        s
        (rw (re, rf)
          (elim (Bool-cases (same_bytes found name)) [
            | inl b ↦ let z : i + 0 ≡ i = omega arith in rw b (hit {e = e} (rw z re))
            | inr b ↦
                rw b (later i (position rest name) (find_loop is_utf8 n disk name k (suc i)) ih)
          ]))

pub dir-file : (n : DiskInode) → dir n ≡ true → file n ≡ false
unfolding dir file
dir-file n h = of_type n.type_ h
  where
    of_type :
        (t : DiskInodeType)
        → elim t [ dir_type ↦ true | file_type ↦ false ] ≡ true
        → elim t [ dir_type ↦ false | file_type ↦ true ] ≡ false
    of_type dir_type e = refl
    of_type file_type e = cc e

-- Where `ls` of a directory lists its names, a search for a name does not panic: it answers the inode
-- number of the first entry that is listed with that name, and none when the name is not listed.
pub find_inode_id-ls :
    (is_utf8 : List ℕ → Bool) (fs : MicroFs) (i : ℕ) (name : List ℕ) (names : List (List ℕ))
    → dir (fs.inodes i) ≡ true
    → ls is_utf8 fs i ≡ done names
    → Answer
        (fs.inodes i)
        fs.disk
        0
        (position names name)
        (find_inode_id is_utf8 (fs.inodes i) fs.disk name)
unfolding ls find_inode_id file dir
find_inode_id-ls is_utf8 fs i name names d h =
    let f = dir-file (fs.inodes i) d in
    let h' = rw f at h in
    rw d (find_loop-Answer is_utf8 (fs.inodes i) fs.disk name ((fs.inodes i).size / 32) 0 names h')
