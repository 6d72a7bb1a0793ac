-- ===== src/Micro/Layout/Clear.antt =====
-- components/src/micro_fs/layout.rs: `DiskInode::clear_size`, which gives all blocks of a file back.
pub mod Count
use nimloth_os.Prelude.{
  ℕ, zero, suc, ◌+◌, ◌-◌, ◌/◌, ◌%◌, ◌≡◌, min, List, [], ◌∷◌, ◌++◌, leb, ltb, if◌then◌else◌, Outcome,
  done, panic, assert, ◌>>=◌, ◌>>◌,
}
use nimloth_os.Micro.Layout.{
  Disk, DiskInode, entry, data_blocks, inode_direct_count, inode_indirect1_count,
  inode_indirect2_count, inode_indirect3_count,
}

-- So many numbers from an index on: the pushes of a loop over `direct` or over an index block.
abbrev pub numbers_from : (ℕ → ℕ) → ℕ → ℕ → List ℕ
numbers_from f i zero = []
numbers_from f i (suc n) = f i ∷ numbers_from f (suc i) n

-- An index block of the lowest level and its first entries, as far as it has them.
unfoldable pub clear_entries : Disk → ℕ → ℕ → List ℕ
unfolding entry
clear_entries disk b n = numbers_from (entry disk b) 0 (min n inode_indirect1_count)

-- The entries of a block of index blocks from an index on, each with what is under it.
unfoldable pub clear_below : Disk → (ℕ → List ℕ) → ℕ → ℕ → ℕ → List ℕ
unfolding entry
clear_below disk under b i zero = []
clear_below disk under b i (suc n) =
    (entry disk b i ∷ under (entry disk b i)) ++ clear_below disk under b (suc i) n

-- A block of index blocks: `a1` full ones, and `b1` entries of the next.
unfoldable pub clear_level2 : Disk → ℕ → ℕ → ℕ → Outcome (List ℕ)
unfolding clear_entries clear_below entry
clear_level2 disk b a1 b1 =
    let full =
      clear_below disk (λ e. clear_entries disk e inode_indirect1_count) b 0
        (min a1 inode_indirect1_count) in
    if ltb 0 b1
    then assert (ltb a1 inode_indirect1_count)
      >> done (full ++ (entry disk b a1 ∷ clear_entries disk (entry disk b a1) b1))
    else done full

-- The loop over the full blocks of the third level, which also clears the last one in every round.
unfoldable pub clear_level3 : Disk → ℕ → ℕ → ℕ → ℕ → ℕ → ℕ → Outcome (List ℕ)
unfolding clear_level2 entry
clear_level3 disk b a2 b2 c2 i zero = done []
clear_level3 disk b a2 b2 c2 i (suc n) = do
  full ← clear_level2 disk (entry disk b i) inode_indirect1_count 0
  last ←
      (if ltb 0 b2
        then assert (ltb a2 inode_indirect1_count)
          >> (clear_level2 disk (entry disk b a2) b2 c2 >>= λ v. done (entry disk b a2 ∷ v))
        else done [])
  rest ← clear_level3 disk b a2 b2 c2 (suc i) n
  done ((entry disk b i ∷ full) ++ last ++ rest)

-- What comes after the second level; the first assertion of it has the wider bound.
unfoldable pub clear_indirect3 : DiskInode → ℕ → Disk → Outcome (DiskInode × List ℕ)
unfolding clear_level3
clear_indirect3 n blocks disk =
    assert (leb blocks inode_indirect3_count)
    >> (if ltb inode_indirect2_count blocks
        then (let rest = blocks - inode_indirect2_count in
            let low = rest % inode_indirect2_count in
            assert (leb rest inode_indirect3_count)
            >> clear_level3 disk n.indirect3 (rest / inode_indirect2_count)
                (low / inode_indirect1_count) (low % inode_indirect1_count) 0
                (min (rest / inode_indirect2_count) inode_indirect1_count)
            >>= λ v. done (record n { indirect3 = 0 }, n.indirect3 ∷ v))
        else done (n, []))

unfoldable pub clear_indirect2 : DiskInode → ℕ → Disk → Outcome (DiskInode × List ℕ)
unfolding clear_level2 clear_indirect3
clear_indirect2 n blocks disk =
    if ltb inode_indirect1_count blocks
    then (let rest = blocks - inode_indirect1_count in
        do
          assert (leb rest inode_indirect2_count)
          v ←
              clear_level2 disk n.indirect2 (rest / inode_indirect1_count)
                (rest % inode_indirect1_count)
          r ← clear_indirect3 (record n { indirect2 = 0 }) rest disk
          done (r.0, (n.indirect2 ∷ v) ++ r.1))
    else done (n, [])

unfoldable pub clear_indirect1 : DiskInode → ℕ → Disk → Outcome (DiskInode × List ℕ)
unfolding clear_entries clear_indirect2
clear_indirect1 n blocks disk =
    if ltb inode_direct_count blocks
    then (let rest = blocks - inode_direct_count in
        do
          r ← clear_indirect2 (record n { indirect1 = 0 }) rest disk
          done (r.0, (n.indirect1 ∷ clear_entries disk n.indirect1 rest) ++ r.1))
    else done (n, [])

unfoldable pub clear_size : DiskInode → Disk → Outcome (DiskInode × List ℕ)
unfolding data_blocks clear_indirect1
clear_size n disk =
    let blocks = data_blocks n in
    let stop = min blocks inode_direct_count in
    let n' = record n { size = 0; direct = λ i. if ltb i stop then 0 else n.direct i } in
    do r ← clear_indirect1 n' blocks disk; done (r.0, numbers_from n.direct 0 stop ++ r.1)
