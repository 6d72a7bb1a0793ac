-- ===== src/Micro/Vfs/Names.antt =====
-- A new name in a directory of a file system that `create` has laid out.
use nimloth_os.Prelude.{
  ℕ, ◌+◌, ◌^◌, ◌≤◌, ◌<◌, ◌≡◌, ◌≢◌, refl, sym, ap, subst, inl, inr, Bool, Bool-cases, true, false,
  Option, none, some, List, [], ◌∷◌, ◌++◌, ltb, arith, Outcome, done, panic, unwrap, ◌>>=◌,
}
use nimloth_os.Micro.Bitmap.{Bitmap, Blocks, maximum, alloc}
use nimloth_os.Micro.Bitmap.Bits.{bit_at, AreWords}
use nimloth_os.Micro.Bitmap.Alloc.{Allocated, lowest, bitmap_alloc}
use nimloth_os.Micro.Layout.{DiskInodeType, initialize}
use nimloth_os.Micro.Mfs.{MicroFs, create_manager, disk_inode_pos, inode_size, alloc_inode}
use nimloth_os.Micro.Mfs.Areas.{Fits, inodes_apart}
use nimloth_os.Micro.Vfs.{ls, create_inode, find_inode_id}
use nimloth_os.Micro.Vfs.Directory.{position, Answer, find_inode_id-ls}
use nimloth_os.Micro.Vfs.Create.{HasRoom, IsName, create_inode-created, not_found}

-- A file system that `create` laid out on at most 2^30 blocks, with 64-bit words in its bitmaps and an inode of that number.
pub record IsMade (fs : MicroFs) (total blocks inode : ℕ) : Type 0 where
  pub fits : Fits total blocks
  pub small : total ≤ 2 ^ 30
  pub manager : fs.manager ≡ create_manager total blocks
  pub words : AreWords fs.bits
  pub taken : bit_at fs.manager.inode_bitmap fs.bits inode ≡ true

-- Two inodes whose bytes on the device do not overlap.
abbrev pub Separate : MicroFs → ℕ → ℕ → Type 0
Separate fs a b =
    let p = disk_inode_pos fs.manager a in
    let q = disk_inode_pos fs.manager b in
    (p.0 ≡ q.0) → (p.1 < q.1 + inode_size) → (q.1 < p.1 + inode_size) → ⊥

-- The result of `create_inode` with the new inode `id`.
pub record Created (is_utf8 : List ℕ → Bool) (fs : MicroFs) (parent : ℕ) (name : List ℕ)
    (t : DiskInodeType) (names : List (List ℕ)) (id : ℕ) (fs' : MicroFs) : Type 0 where
  pub answer : create_inode is_utf8 fs parent name t ≡ done (fs', some id)
  pub free : bit_at fs.manager.inode_bitmap fs.bits id ≡ false
  pub numbered : id < maximum fs.manager.inode_bitmap
  pub listed : ls is_utf8 fs' parent ≡ done (names ++ (name ∷ []))
  pub initialized : fs'.inodes id ≡ initialize t
  pub others : (i : ℕ) → i ≢ parent → i ≢ id → fs'.inodes i ≡ fs.inodes i
  pub place : (i : ℕ) → i < maximum fs.manager.inode_bitmap → i ≢ id → Separate fs id i

not_above : (a b : ℕ) → (b < a → ⊥) → a ≤ b
not_above a b h = elim (Bool-cases (ltb b a)) [
  | inl x ↦ absurd (h (ground (arith, x)))
  | inr x ↦ ground (arith, x)
]

separate :
    (fs : MicroFs) (total blocks inode a b : ℕ)
    → IsMade fs total blocks inode
    → a < maximum fs.manager.inode_bitmap
    → b < maximum fs.manager.inode_bitmap
    → b ≢ a
    → Separate fs a b
separate fs total blocks inode a b m ha hb n e l r =
    let ha' = rw m.manager at ha in
    let hb' = rw m.manager at hb in
    let (_, _, _, same) = inodes_apart total blocks a b m.fits ha' hb' in
    n (sym (same (rw m.manager at e) (rw m.manager at l) (rw m.manager at r)))

inodes_small :
    (total blocks : ℕ)
    → Fits total blocks
    → total ≤ 2 ^ 30
    → maximum (create_manager total blocks).inode_bitmap < 2 ^ 32
unfolding create_manager
inodes_small total blocks f small = omega (arith, f.room, small)

maximum_small :
    (fs : MicroFs) (total blocks inode : ℕ)
    → IsMade fs total blocks inode
    → maximum fs.manager.inode_bitmap < 2 ^ 32
maximum_small fs total blocks inode m = rw m.manager (inodes_small total blocks m.fits m.small)

create_inode-full :
    (is_utf8 : List ℕ → Bool) (fs : MicroFs) (parent : ℕ) (name : List ℕ) (t : DiskInodeType)
    → find_inode_id is_utf8 (fs.inodes parent) fs.disk name ≡ done none
    → alloc_inode fs ≡ panic
    → create_inode is_utf8 fs parent name t ≡ panic
unfolding create_inode
create_inode-full is_utf8 fs parent name t f a = rw (f, a) refl

-- `create_inode` in a directory of a file system that `create` laid out on at most 2^30 blocks. The
-- directory can be listed by `ls` and has at most 8467968 bytes, in whole entries; its last block has
-- room for one more entry, and its blocks are all different and apart from its index blocks. The name
-- has at most 27 bytes, no zero byte, and is UTF-8. A name that the directory lists already changes
-- nothing and answers none. For any other name, while an inode of some number `k` is free, the answer
-- is a free inode with a number of at most `k`: it is initialised with the type asked for, its place on
-- the device overlaps that of no other inode, no inode but it and the directory's changes, and the
-- directory lists its old names, in their order, and then the new one. When no inode is free, a new
-- name panics.
pub create_inode-ls :
    (is_utf8 : List ℕ → Bool) (fs : MicroFs) (total blocks parent : ℕ) (name : List ℕ)
    (t : DiskInodeType) (names : List (List ℕ))
    → IsMade fs total blocks parent
    → HasRoom is_utf8 fs parent names
    → IsName is_utf8 name
    → ((j : ℕ)
        → position names name ≡ some j
        → create_inode is_utf8 fs parent name t ≡ done (fs, none))
      × (position names name ≡ none
          → (k : ℕ) → k < maximum fs.manager.inode_bitmap
          → bit_at fs.manager.inode_bitmap fs.bits k ≡ false
          → (id : ℕ) × (fs' : MicroFs) × (id ≤ k) × Created is_utf8 fs parent name t names id fs')
      × (position names name ≡ none
          → ((k : ℕ)
              → k < maximum fs.manager.inode_bitmap
              → bit_at fs.manager.inode_bitmap fs.bits k ≡ true)
          → create_inode is_utf8 fs parent name t ≡ panic)
unfolding alloc_inode
create_inode-ls is_utf8 fs total blocks parent name t names m h w = (
  (create_inode-created is_utf8 fs parent name t names h w).0,
  λ p k l f. grant p k l f (alloc bm fs.bits) (bitmap_alloc bm fs.bits m.words) refl,
  λ p f. refuse p f (alloc bm fs.bits) (bitmap_alloc bm fs.bits m.words) refl,
)
  where
    bm : Bitmap
    bm = fs.manager.inode_bitmap

    answer : Blocks × Option ℕ → Outcome (MicroFs × ℕ)
    answer r = unwrap (r.1) >>= λ id. done (record fs { bits = r.0 }, id)

    Searched : Option ℕ → Type 0
    Searched o =
        Answer (fs.inodes parent) fs.disk 0 o
          (find_inode_id is_utf8 (fs.inodes parent) fs.disk name)

    searched : Searched (position names name)
    searched = find_inode_id-ls is_utf8 fs parent name names h.is_dir h.listed

    grant :
        position names name ≡ none
        → (k : ℕ) → k < maximum bm
        → bit_at bm fs.bits k ≡ false
        → (r : Blocks × Option ℕ) → Allocated bm fs.bits r
        → alloc_inode fs ≡ answer r
        → (id : ℕ) × (fs' : MicroFs) × (id ≤ k) × Created is_utf8 fs parent name t names id fs'
    grant p k l f (bits, some id) (lowest n c low s a) e =
        let le : id ≤ k = not_above id k (λ g. cc (low k g, f)) in
        let apart : id ≢ parent = λ q. cc (ap (λ (x : ℕ). bit_at bm fs.bits x) q, c, m.taken) in
        let small : id < 2 ^ 32 = omega (arith, le, l, maximum_small fs total blocks parent m) in
        let (fs', ans, listed, init, others) =
          (create_inode-created is_utf8 fs parent name t names h w).1 (record fs { bits = bits }) id
            p e apart small in
        let top : id < maximum bm = omega (arith, le, l) in
        (
          id,
          fs',
          le,
          record {
            answer = ans;
            free = c;
            numbered = top;
            listed = listed;
            initialized = init;
            others = others;
            place = λ i b d. separate fs total blocks parent id i m top b d;
          },
        )
    grant p k l f (bits, none) (Allocated.full g) e = cc (g k l, f)

    refuse :
        position names name ≡ none
        → ((k : ℕ) → k < maximum bm → bit_at bm fs.bits k ≡ true)
        → (r : Blocks × Option ℕ) → Allocated bm fs.bits r
        → alloc_inode fs ≡ answer r
        → create_inode is_utf8 fs parent name t ≡ panic
    refuse p f (bits, some id) (lowest n c low s a) e = cc (f id n, c)
    refuse p f (bits, none) (Allocated.full g) e =
        create_inode-full is_utf8 fs parent name t (not_found (subst Searched p searched)) e
