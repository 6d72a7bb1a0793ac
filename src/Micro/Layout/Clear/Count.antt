-- ===== src/Micro/Layout/Clear/Count.antt =====
-- How many blocks `clear_size` gives back.
use nimloth_os.Prelude.{
  ℕ, zero, suc, ◌+◌, ◌-◌, ◌*◌, ◌/◌, ◌%◌, ◌≤◌, ◌<◌, ◌≡◌, refl, sym, ◌∙◌, inl, inr, min, Bool,
  Bool-cases, true, false, List, [], ◌∷◌, ◌++◌, length, length-append, leb, ltb, if◌then◌else◌,
  arith, Outcome, done,
}
use nimloth_os.Micro.Layout.{
  Disk, DiskInode, entry, data_blocks, data_blocks_of, total_blocks, with_index_blocks,
}
use nimloth_os.Micro.Layout.Clear.{
  numbers_from, clear_entries, clear_below, clear_level2, clear_indirect3, clear_indirect2,
  clear_indirect1, clear_size,
}

length-numbers_from : (f : ℕ → ℕ) (i n : ℕ) → length (numbers_from f i n) ≡ n
length-numbers_from f i zero = refl
length-numbers_from f i (suc n) = omega (arith, length-numbers_from f (suc i) n)

length-clear_entries : (disk : Disk) (b n : ℕ) → length (clear_entries disk b n) ≡ min n 128
unfolding clear_entries
length-clear_entries disk b n = length-numbers_from (entry disk b) 0 (min n 128)

length-clear_below :
    (disk : Disk) (b i n : ℕ)
    → length (clear_below disk (λ e. clear_entries disk e 128) b i n) ≡ 129 * n
unfolding clear_below
length-clear_below disk b i zero = refl
length-clear_below disk b i (suc n) =
    let e = entry disk b i in
    let rest = clear_below disk (λ e. clear_entries disk e 128) b (suc i) n in
    omega (
      arith,
      length-append (clear_entries disk e 128) rest,
      length-clear_entries disk e 128,
      length-clear_below disk b (suc i) n,
    )

-- A run that gives `k` blocks back and leaves the size alone.
record Gives (k : ℕ) (n : DiskInode) (r : Outcome (DiskInode × List ℕ)) : Type 0 where
  after : DiskInode
  freed : List ℕ
  result : r ≡ done (after, freed)
  counted : length freed ≡ k
  size : after.size ≡ n.size

abbrev one_if : Bool → ℕ
one_if c = if c then 1 else 0

clear_level2-length :
    (disk : Disk) (b n : ℕ)
    → n ≤ 16384
    → (v : List ℕ) × (clear_level2 disk b (n / 128) (n % 128) ≡ done v)
      × (length v ≡ n + (n + 127) / 128)
unfolding clear_level2
clear_level2-length disk b n h =
    let full = clear_below disk (λ e. clear_entries disk e 128) b 0 (min (n / 128) 128) in
    let lf = length-clear_below disk b 0 (min (n / 128) 128) in
    elim (Bool-cases (ltb 0 (n % 128))) [
      | inr f ↦ (full, rw f refl, ground (arith, lf, f, h))
      | inl f ↦
          let some_left : 0 < n % 128 = ground (arith, f) in
          let i : ltb (n / 128) 128 ≡ true = ground (arith, some_left, h) in
          let e = entry disk b (n / 128) in
          let last = clear_entries disk e (n % 128) in
          (
            full ++ (e ∷ last),
            rw (f, i) refl,
            omega (
              arith,
              lf,
              some_left,
              h,
              length-append full (e ∷ last),
              length-clear_entries disk e (n % 128),
            ),
          )
    ]

clear_indirect3-Gives :
    (n : DiskInode) (blocks : ℕ) (disk : Disk)
    → blocks ≤ 16384
    → Gives 0 n (clear_indirect3 n blocks disk)
unfolding clear_indirect3
clear_indirect3-Gives n blocks disk h =
    let a : leb blocks 2097152 ≡ true = ground (arith, h) in
    let b : ltb 16384 blocks ≡ false = ground (arith, h) in
    rw (a, b) (record { after = n; freed = []; result = refl; counted = refl; size = refl })

clear_indirect2-Gives :
    (n : DiskInode) (blocks : ℕ) (disk : Disk)
    → blocks ≤ 16512
    → Gives
        (if ltb 128 blocks then 1 + (blocks - 128) + (blocks - 1) / 128 else 0)
        n
        (clear_indirect2 n blocks disk)
unfolding clear_indirect2
clear_indirect2-Gives n blocks disk h = elim (Bool-cases (ltb 128 blocks)) [
  | inr f ↦ rw f (record { after = n; freed = []; result = refl; counted = refl; size = refl })
  | inl f ↦
      let rest = blocks - 128 in
      let big : 128 < blocks = ground (arith, f) in
      let a : leb rest 16384 ≡ true = ground (arith, h) in
      let (v, ev, lv) = clear_level2-length disk n.indirect2 rest (omega (arith, h)) in
      let x = clear_indirect3-Gives (record n { indirect2 = 0 }) rest disk (omega (arith, h)) in
      rw (f, a, ev, x.result)
        (record {
          after = x.after;
          freed = (n.indirect2 ∷ v) ++ x.freed;
          result = refl;
          counted = omega (arith, length-append (n.indirect2 ∷ v) x.freed, lv, x.counted, big);
          size = x.size;
        })
]

clear_indirect1-Gives :
    (n : DiskInode) (blocks k : ℕ) (disk : Disk)
    → blocks ≤ 16539
    → k ≡ with_index_blocks blocks - min blocks 27
    → Gives k n (clear_indirect1 n blocks disk)
unfolding clear_indirect1
clear_indirect1-Gives n blocks k disk h ek = elim (Bool-cases (ltb 27 blocks)) [
  | inr f ↦
      let small : blocks ≤ 27 = ground (arith, f) in
      let z : k ≡ 0 = none_given blocks k small ek in
      rw (f, z) (record { after = n; freed = []; result = refl; counted = refl; size = refl })
  | inl f ↦
      let rest = blocks - 27 in
      let big : 27 < blocks = ground (arith, f) in
      let x = clear_indirect2-Gives (record n { indirect1 = 0 }) rest disk (omega (arith, h)) in
      let v = clear_entries disk n.indirect1 rest in
      rw (f, x.result)
        (record {
          after = x.after;
          freed = (n.indirect1 ∷ v) ++ x.freed;
          result = refl;
          counted =
              levels blocks (length ((n.indirect1 ∷ v) ++ x.freed)) big h (
                omega (
                  arith,
                  length-append (n.indirect1 ∷ v) x.freed,
                  length-clear_entries disk n.indirect1 rest,
                  x.counted,
                ))
              ∙ sym ek;
          size = x.size;
        })
]
  where
    none_given : (blocks k : ℕ) → blocks ≤ 27 → k ≡ with_index_blocks blocks - min blocks 27 → k ≡ 0
    none_given blocks k l e = ground (arith, l, e)

    levels :
        (blocks k : ℕ)
        → 27 < blocks
        → blocks ≤ 16539
        → k
          ≡ 1
            + min (blocks - 27) 128
            + (if ltb 128 (blocks - 27)
                then 1 + (blocks - 27 - 128) + (blocks - 27 - 1) / 128
                else 0)
        → k ≡ with_index_blocks blocks - min blocks 27
    levels blocks k l m e = ground (arith, l, m, e)

-- `clear_size` of an inode of at most 16539 data blocks does not panic, gives back exactly
-- `total_blocks` of its size, and leaves an inode of size 0.
pub clear_size_lem :
    (n : DiskInode) (disk : Disk)
    → n.size ≤ 8467968
    → (n' : DiskInode) × (freed : List ℕ) × (clear_size n disk ≡ done (n', freed))
      × (length freed ≡ total_blocks n.size)
      × (n'.size ≡ 0)
unfolding clear_size data_blocks total_blocks data_blocks_of
clear_size_lem n disk h =
    let blocks = (n.size + 511) % 4294967296 / 512 in
    let l : blocks ≤ 16539 = omega (arith, h) in
    let stop = min blocks 27 in
    let n' : DiskInode = record n {
      size = 0;
      direct = λ i. if ltb i stop then 0 else n.direct i;
    } in
    let x = clear_indirect1-Gives n' blocks _ disk l refl in
    (
      x.after,
      numbers_from n.direct 0 stop ++ x.freed,
      rw x.result refl,
      whole blocks _ l (
          omega (
            arith,
            length-append (numbers_from n.direct 0 stop) x.freed,
            length-numbers_from n.direct 0 stop,
            x.counted,
          )),
      x.size,
    )
  where
    whole :
        (blocks k : ℕ)
        → blocks ≤ 16539
        → k ≡ min blocks 27 + (with_index_blocks blocks - min blocks 27)
        → k ≡ with_index_blocks blocks % 4294967296
    whole blocks k l e = ground (arith, l, e)
