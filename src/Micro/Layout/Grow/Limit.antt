-- ===== src/Micro/Layout/Grow/Limit.antt =====
-- `increase_size` beyond the second level.
use nimloth_os.Prelude.{
  ℕ, zero, suc, ◌+◌, ◌-◌, ◌*◌, ◌/◌, ◌%◌, ◌^◌, ◌≤◌, ◌<◌, ◌≡◌, refl, inl, inr, min, max, Bool-cases,
  ==_eq, true, ◌&&◌, ◌||◌, List, [], ◌∷◌, ◌==◌, ltb, arith, Outcome, done, panic, ◌>>=◌,
}
use nimloth_os.Micro.Layout.{Disk, DiskInode, data_blocks, data_blocks_of}
use nimloth_os.Micro.Layout.Grow.{
  fill_direct, fill_entries, install, level2_round, level2_loop, Growth, take_if, grow_indirect2,
  grow_indirect1, increase_size,
}

bind_panics {ℓ κ} :
    {S : Type ℓ} {T : Type κ} (r : Outcome S) (f : S → Outcome T)
    → ((s : S) → f s ≡ panic)
    → (r >>= f) ≡ panic
bind_panics (done s) f h = h s
bind_panics panic f h = refl

-- The 129th entry of the block of index blocks.
level2_round-panic :
    (b : ℕ) (disk : Disk) (blocks : List ℕ) → level2_round b 128 0 disk blocks ≡ panic
unfolding level2_round install
level2_round-panic b disk [] = refl
level2_round-panic b disk (v ∷ blocks) = refl

level2_loop-panic :
    (n b a0 b0 a1 b1 : ℕ) (disk : Disk) (blocks : List ℕ)
    → b0 < 128
    → b1 < 128
    → 128 * a0 + b0 + n ≡ 128 * a1 + b1
    → 128 * a0 + b0 ≤ 16384
    → 16384 < 128 * a1 + b1
    → level2_loop n b a0 b0 a1 b1 disk blocks ≡ panic
unfolding level2_loop
level2_loop-panic zero b a0 b0 a1 b1 disk blocks l0 l1 e m k = absurd (omega (arith, e, m, k))
level2_loop-panic (suc n) b a0 b0 a1 b1 disk blocks l0 l1 e m k =
    let c : (ltb a0 a1 || ((a0 == a1) && ltb b0 b1)) ≡ true = ground (arith, e) in
    rw c (elim (Bool-cases (128 * a0 + b0 == 16384)) [
      | inl x ↦
          let full : 128 * a0 + b0 ≡ 16384 = ==_eq (128 * a0 + b0) 16384 x in
          let ea : a0 ≡ 128 = omega (arith, full, l0) in
          let eb : b0 ≡ 0 = omega (arith, full, l0) in
          rw (ea, eb, level2_round-panic b disk blocks) refl
      | inr x ↦
          let room : 128 * a0 + b0 < 16384 = ground (arith, x, m) in
          bind_panics (level2_round b a0 b0 disk blocks) _ λ s. elim (Bool-cases (b0 + 1 == 128)) [
            | inl d ↦
                let z : b0 + 1 ≡ 128 = ==_eq (b0 + 1) 128 d in
                rw d (
                  level2_loop-panic n b (a0 + 1) 0 a1 b1 s.0 s.1 (omega arith) l1
                    (omega (arith, e, z)) (omega (arith, room, z)) k)
            | inr d ↦ rw d (
                level2_loop-panic n b a0 (b0 + 1) a1 b1 s.0 s.1 (ground (arith, l0, d)) l1
                  (omega (arith, e)) (omega (arith, room)) k)
          ]
    ])

grow_indirect2-panic :
    (current total : ℕ) (g : Growth)
    → current ≤ 16512
    → 128 ≤ current
    → 16512 < total
    → grow_indirect2 current total g ≡ panic
unfolding grow_indirect2
grow_indirect2-panic current total g m low k =
    let c : ltb 128 total ≡ true = ground (arith, k) in
    let p = current - 128 in
    let q = total - 128 in
    let ep : 128 * (p / 128) + p % 128 ≡ p = omega arith in
    let eq : 128 * (q / 128) + q % 128 ≡ q = omega arith in
    rw c (
      bind_panics (take_if (current == 128) g.inode.indirect2 g.blocks) _ λ t.
        let l =
          level2_loop-panic (q - p) t.0 (p / 128) (p % 128) (q / 128) (q % 128) g.disk t.1
            (omega arith) (omega arith) (omega (arith, ep, eq, m, low, k)) (omega (arith, ep, m))
            (omega (arith, eq, k)) in
        rw l refl)

grow_indirect1-panic :
    (current total : ℕ) (g : Growth)
    → current ≤ 16539
    → 27 ≤ current
    → 16539 < total
    → grow_indirect1 current total g ≡ panic
unfolding grow_indirect1
grow_indirect1-panic current total g m low k =
    let c : ltb 27 total ≡ true = ground (arith, k) in
    rw c (
      bind_panics (take_if (current == 27) g.inode.indirect1 g.blocks) _ λ t.
        bind_panics
          (fill_entries (min (total - 27) 128 - (current - 27)) (current - 27) t.0 g.disk t.1) _
          λ s.
            grow_indirect2-panic (max (current - 27) (min (total - 27) 128)) (total - 27) _
              (omega (arith, m, k)) (omega (arith, k)) (omega (arith, k)))

-- From at most 16539 data blocks to more, `increase_size` panics, whatever blocks it is given: the
-- loop of the second level runs past the 128 entries of its index block. The third level is never
-- used, although the new size is well within it.
pub increase_size-panic :
    (n : DiskInode) (new_size : ℕ) (blocks : List ℕ) (disk : Disk)
    → n.size ≤ 8467968
    → 8467968 < new_size
    → new_size + 511 < 2 ^ 32
    → increase_size n new_size blocks disk ≡ panic
unfolding increase_size data_blocks data_blocks_of
increase_size-panic n new_size blocks disk m k w =
    let p = (n.size + 511) % 4294967296 / 512 in
    let q = (new_size + 511) % 4294967296 / 512 in
    let l : p ≤ 16539 = omega (arith, m) in
    let h : 16539 < q = omega (arith, k, w) in
    bind_panics (fill_direct (min q 27 - p) p n.direct blocks) _
      λ s. grow_indirect1-panic (max p (min q 27)) q _ (omega (arith, l)) (omega (arith, h)) h
