-- ===== src/Micro/Layout/Grow/Same.antt =====
-- `increase_size` within the last block of a file.
use nimloth_os.Prelude.{
  ℕ, ◌-◌, ◌≤◌, ◌≡◌, refl, inl, inr, min, max, Bool-cases, true, false, [], ◌==◌, ltb, leb, arith,
  done,
}
use nimloth_os.Micro.Layout.{
  Disk, DiskInode, data_blocks, data_blocks_of, total_blocks, blocks_num_needed,
}
use nimloth_os.Micro.Layout.Grow.{
  fill_direct, fill_entries, level2_loop, Growth, grow_indirect3, grow_indirect2, grow_indirect1,
  increase_size,
}

grow_indirect2-same : (t : ℕ) (g : Growth) → t ≤ 16512 → grow_indirect2 t t g ≡ done g
unfolding grow_indirect2 grow_indirect3 level2_loop
grow_indirect2-same t g h = elim (Bool-cases (ltb 128 t)) [
  | inr f ↦ rw f refl
  | inl f ↦
      let a : (t == 128) ≡ false = ground (arith, f) in
      let z : t - 128 - (t - 128) ≡ 0 = omega arith in
      let b : ltb 16384 (t - 128) ≡ false = ground (arith, h) in rw (f, a, z, b) refl
]

grow_indirect1-same : (t : ℕ) (g : Growth) → t ≤ 16539 → grow_indirect1 t t g ≡ done g
unfolding grow_indirect1 fill_entries
grow_indirect1-same t g h = elim (Bool-cases (ltb 27 t)) [
  | inr f ↦ rw f refl
  | inl f ↦
      let a : (t == 27) ≡ false = ground (arith, f) in
      let z : min (t - 27) 128 - (t - 27) ≡ 0 = omega arith in
      let m : max (t - 27) (min (t - 27) 128) ≡ t - 27 = omega arith in
      rw (f, a, z, m) (grow_indirect2-same (t - 27) g (omega (arith, h)))
]

-- A size that needs as many data blocks as the old one needs no new block, and changes the size alone.
pub increase_size-same :
    (n : DiskInode) (new_size : ℕ) (disk : Disk)
    → n.size ≤ new_size
    → data_blocks_of new_size ≡ data_blocks_of n.size
    → data_blocks_of n.size ≤ 16539
    → (blocks_num_needed n new_size ≡ done 0)
      × (increase_size n new_size [] disk
          ≡ done (record { inode = record n { size = new_size }; disk = disk; blocks = [] }))
unfolding increase_size blocks_num_needed data_blocks total_blocks fill_direct
increase_size-same n new_size disk l e m =
    let t = data_blocks_of n.size in
    let a : leb n.size new_size ≡ true = ground (arith, l) in
    let z : min t 27 - t ≡ 0 = omega arith in
    let x : max t (min t 27) ≡ t = omega arith in
    (
      rw (a, e) (nothing (total_blocks n.size)),
      rw (e, z, x)
          (grow_indirect1-same t
            (record { inode = record n { size = new_size }; disk = disk; blocks = [] }) m),
    )
  where
    nothing : (k : ℕ) → done (k - k) ≡ done 0
    nothing k = let z : k - k ≡ 0 = omega arith in rw z refl
