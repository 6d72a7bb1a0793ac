-- ===== src/Micro/Layout/Grow.antt =====
-- components/src/micro_fs/layout.rs: `DiskInode::increase_size`, which takes the blocks of a larger
-- file, data and index blocks, from a list.
pub mod Count
pub mod Needed
pub mod Limit
pub mod Same
use nimloth_os.Prelude.{
  ℕ, zero, suc, ◌+◌, ◌-◌, ◌*◌, ◌/◌, ◌%◌, min, max, Bool, true, false, ◌&&◌, ◌||◌, List, [], ◌∷◌,
  ◌==◌, leb, ltb, if◌then◌else◌, Outcome, done, panic, assert, ◌>>=◌, ◌>>◌,
}
use nimloth_os.Micro.Layout.{
  Disk, DiskInode, set_entry, indexed, data_blocks, inode_direct_count, inode_indirect1_count,
  inode_indirect2_count,
}

abbrev pub update : (ℕ → ℕ) → ℕ → ℕ → ℕ → ℕ
update direct i v j = if i == j then v else direct j

-- The loop over `direct`, in so many rounds.
unfoldable pub fill_direct : ℕ → ℕ → (ℕ → ℕ) → List ℕ → Outcome ((ℕ → ℕ) × List ℕ)
fill_direct zero i direct blocks = done (direct, blocks)
fill_direct (suc n) i direct [] = panic
fill_direct (suc n) i direct (v ∷ blocks) = fill_direct n (suc i) (update direct i v) blocks

-- The loop over the entries of one index block.
unfoldable pub fill_entries : ℕ → ℕ → ℕ → Disk → List ℕ → Outcome (Disk × List ℕ)
unfolding set_entry
fill_entries zero i b disk blocks = done (disk, blocks)
fill_entries (suc n) i b disk [] = panic
fill_entries (suc n) i b disk (v ∷ blocks) = fill_entries n (suc i) b (set_entry disk b i v) blocks

-- The next block of the list becomes an entry of an index block.
unfoldable pub install : Disk → ℕ → ℕ → List ℕ → Outcome (Disk × List ℕ)
unfolding set_entry
install disk b i [] = panic
install disk b i (v ∷ blocks) =
    assert (ltb i inode_indirect1_count) >> done (set_entry disk b i v, blocks)

abbrev pub install_if : Bool → Disk → ℕ → ℕ → List ℕ → Outcome (Disk × List ℕ)
install_if true disk b i blocks = install disk b i blocks
install_if false disk b i blocks = done (disk, blocks)

-- One round of the second loop: an index block when the round starts one, and a data block.
unfoldable pub level2_round : ℕ → ℕ → ℕ → Disk → List ℕ → Outcome (Disk × List ℕ)
unfolding install
level2_round indirect2 a0 b0 disk blocks = install_if (b0 == 0) disk indirect2 a0 blocks >>= λ s.
    indexed (s.0) indirect2 a0 >>= λ indirect1. install (s.0) indirect1 b0 (s.1)

unfoldable pub level2_loop : ℕ → ℕ → ℕ → ℕ → ℕ → ℕ → Disk → List ℕ → Outcome (Disk × List ℕ)
unfolding level2_round
level2_loop zero indirect2 a0 b0 a1 b1 disk blocks = done (disk, blocks)
level2_loop (suc n) indirect2 a0 b0 a1 b1 disk blocks =
    if ltb a0 a1 || ((a0 == a1) && ltb b0 b1)
    then (level2_round indirect2 a0 b0 disk blocks >>= λ s.
        if b0 + 1 == inode_indirect1_count
        then level2_loop n indirect2 (a0 + 1) 0 a1 b1 (s.0) (s.1)
        else level2_loop n indirect2 a0 (b0 + 1) a1 b1 (s.0) (s.1))
    else done (disk, blocks)

unfoldable pub level3_round : ℕ → ℕ → ℕ → ℕ → Disk → List ℕ → Outcome (Disk × List ℕ)
unfolding install
level3_round indirect3 a0 b0 c0 disk blocks = install_if (b0 == 0) disk indirect3 a0 blocks >>= λ s.
    indexed (s.0) indirect3 a0 >>= λ indirect2.
    install_if (c0 == 0) (s.0) indirect2 b0 (s.1) >>= λ s'.
    indexed (s'.0) indirect2 b0 >>= λ indirect1. install (s'.0) indirect1 c0 (s'.1)

abbrev pub before3 : ℕ × ℕ × ℕ → ℕ × ℕ × ℕ → Bool
before3 (a0, b0, c0) (a1, b1, c1) =
    ltb a0 a1 || (((a0 == a1) && ltb b0 b1) || ((a0 == a1) && ((b0 == b1) && ltb c0 c1)))

-- The position after a round of the third loop, with its two carries.
abbrev pub after3 : ℕ × ℕ × ℕ → ℕ × ℕ × ℕ
after3 (a0, b0, c0) =
    let b = if c0 + 1 == inode_indirect1_count then b0 + 1 else b0 in
    let c = if c0 + 1 == inode_indirect1_count then 0 else c0 + 1 in
    if b == inode_indirect2_count then (a0 + 1, 0, c) else (a0, b, c)

unfoldable pub level3_loop : ℕ → ℕ → ℕ × ℕ × ℕ → ℕ × ℕ × ℕ → Disk → List ℕ → Outcome (Disk × List ℕ)
unfolding level3_round
level3_loop zero indirect3 p q disk blocks = done (disk, blocks)
level3_loop (suc n) indirect3 p q disk blocks =
    if before3 p q
    then (level3_round indirect3 p.0 p.1 p.2 disk blocks >>= λ s.
        level3_loop n indirect3 (after3 p) q (s.0) (s.1))
    else done (disk, blocks)

-- The inode, the disk, and the blocks that are left.
pub record Growth : Type 0 where
  pub inode : DiskInode
  pub disk : Disk
  pub blocks : List ℕ

-- An index block of the inode is taken when its level is entered for the first time.
abbrev pub take_if : Bool → ℕ → List ℕ → Outcome (ℕ × List ℕ)
take_if false old blocks = done (old, blocks)
take_if true old [] = panic
take_if true old (v ∷ blocks) = done (v, blocks)

abbrev pub split3 : ℕ → ℕ × ℕ × ℕ
split3 n = (
  n / inode_indirect2_count,
  n % inode_indirect2_count / inode_indirect1_count,
  n % inode_indirect2_count % inode_indirect1_count,
)

unfoldable pub grow_indirect3 : ℕ → ℕ → Growth → Outcome Growth
unfolding level3_loop
grow_indirect3 current total g =
    if ltb inode_indirect2_count total
    then (take_if (current == inode_indirect2_count) g.inode.indirect3 g.blocks >>= λ t.
        level3_loop (total - current) (t.0) (split3 (current - inode_indirect2_count))
          (split3 (total - inode_indirect2_count)) g.disk (t.1)
        >>= λ s.
            done (record { inode = record g.inode { indirect3 = t.0 }; disk = s.0; blocks = s.1 }))
    else done g

unfoldable pub grow_indirect2 : ℕ → ℕ → Growth → Outcome Growth
unfolding level2_loop grow_indirect3
grow_indirect2 current total g =
    if ltb inode_indirect1_count total
    then (take_if (current == inode_indirect1_count) g.inode.indirect2 g.blocks >>= λ t.
        let c = current - inode_indirect1_count in
        let n = total - inode_indirect1_count in
        level2_loop (n - c) (t.0) (c / inode_indirect1_count) (c % inode_indirect1_count)
          (n / inode_indirect1_count) (n % inode_indirect1_count) g.disk (t.1)
        >>= λ s.
            grow_indirect3 c n
              (record { inode = record g.inode { indirect2 = t.0 }; disk = s.0; blocks = s.1 }))
    else done g

unfoldable pub grow_indirect1 : ℕ → ℕ → Growth → Outcome Growth
unfolding fill_entries grow_indirect2
grow_indirect1 current total g =
    if ltb inode_direct_count total
    then (take_if (current == inode_direct_count) g.inode.indirect1 g.blocks >>= λ t.
        let c = current - inode_direct_count in
        let n = total - inode_direct_count in
        fill_entries (min n inode_indirect1_count - c) c (t.0) g.disk (t.1) >>= λ s.
        grow_indirect2 (max c (min n inode_indirect1_count)) n
          (record { inode = record g.inode { indirect1 = t.0 }; disk = s.0; blocks = s.1 }))
    else done g

unfoldable pub increase_size : DiskInode → ℕ → List ℕ → Disk → Outcome Growth
unfolding data_blocks fill_direct grow_indirect1
increase_size n new_size new_blocks disk =
    let current = data_blocks n in
    let n' = record n { size = new_size } in
    let total = data_blocks n' in
    let stop = min total inode_direct_count in
    fill_direct (stop - current) current n.direct new_blocks >>= λ s.
    grow_indirect1 (max current stop) total
      (record { inode = record n' { direct = s.0 }; disk = disk; blocks = s.1 })
