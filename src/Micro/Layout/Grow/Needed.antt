-- ===== src/Micro/Layout/Grow/Needed.antt =====
-- `increase_size` takes exactly the blocks that `blocks_num_needed` asks for.
use nimloth_os.Prelude.{
  ℕ, ◌+◌, ◌-◌, ◌*◌, ◌/◌, ◌%◌, ◌≤◌, ◌<◌, ◌≡◌, refl, ◌∙◌, inl, inr, min, max, Bool-cases, true, false,
  List, [], ◌∷◌, length, ◌==◌, leb, ltb, if◌then◌else◌, arith, Outcome, done, assert, ◌>>=◌,
}
use nimloth_os.Micro.Layout.{
  Disk, DiskInode, data_blocks, data_blocks_of, total_blocks, blocks_num_needed, with_index_blocks,
}
use nimloth_os.Micro.Layout.Grow.{
  fill_direct, Growth, grow_indirect3, grow_indirect2, grow_indirect1, increase_size,
}
use nimloth_os.Micro.Layout.Grow.Count.{
  fill_direct-Takes, fill_entries-Takes, take_if-Takes, level2_loop-Takes, one_if, span,
}

-- A run that takes `k` blocks and leaves the size alone.
record Grows (k : ℕ) (g : Growth) (r : Outcome Growth) : Type 0 where
  after : Growth
  result : r ≡ done after
  counted : length after.blocks + k ≡ length g.blocks
  size : after.inode.size ≡ g.inode.size

stays : (g : Growth) → Grows 0 g (done g)
stays g = record { after = g; result = refl; counted = omega arith; size = refl }

grow_indirect3-Grows :
    (current total : ℕ) (g : Growth) → total ≤ 16384 → Grows 0 g (grow_indirect3 current total g)
unfolding grow_indirect3
grow_indirect3-Grows current total g h =
    let c : ltb 16384 total ≡ false = ground (arith, h) in rw c (stays g)

abbrev need2 : ℕ → ℕ → ℕ
need2 current total = one_if (current == 128) + span (current - 128) (total - 128)

grow_indirect2-Grows :
    (current total : ℕ) (g : Growth)
    → current ≤ total
    → total ≤ 16512
    → (128 < total → 128 ≤ current)
    → (if ltb 128 total then need2 current total else 0) ≤ length g.blocks
    → Grows (if ltb 128 total then need2 current total else 0) g (grow_indirect2 current total g)
unfolding grow_indirect2
grow_indirect2-Grows current total g le m c h = elim (Bool-cases (ltb 128 total)) [
  | inr f ↦ rw f (stays g)
  | inl f ↦
      let big : 128 < total = ground (arith, f) in
      let low = c big in
      let room : need2 current total ≤ length g.blocks = rw f at h in
      let t = take_if-Takes (current == 128) g.inode.indirect2 g.blocks (omega (arith, room)) in
      let p = current - 128 in
      let q = total - 128 in
      let ep : 128 * (p / 128) + p % 128 ≡ p = omega arith in
      let eq : 128 * (q / 128) + q % 128 ≡ q = omega arith in
      let l =
        level2_loop-Takes (q - p) t.state (p / 128) (p % 128) (q / 128) (q % 128) g.disk t.rest
          (omega arith) (omega arith) (rw (ep, eq) (omega (arith, le, low)))
          (rw eq (omega (arith, m))) (rw (ep, eq) (omega (arith, room, t.counted))) in
      let g' : Growth = record {
        inode = record g.inode { indirect2 = t.state };
        disk = l.state;
        blocks = l.rest;
      } in
      let x = grow_indirect3-Grows p q g' (omega (arith, m)) in
      let counted : length l.rest + span p q ≡ length t.rest = rw (ep, eq) at l.counted in
      rw (f, t.result, l.result, x.result)
        (record {
          after = x.after;
          result = refl;
          counted = omega (arith, x.counted, counted, t.counted);
          size = x.size;
        })
]

abbrev need1 : ℕ → ℕ → ℕ
need1 current total =
    one_if (current == 27)
    + (min (total - 27) 128 - (current - 27))
    + (if ltb 128 (total - 27)
        then need2 (max (current - 27) (min (total - 27) 128)) (total - 27)
        else 0)

grow_indirect1-Grows :
    (current total : ℕ) (g : Growth)
    → current ≤ total
    → total ≤ 16539
    → (27 < total → 27 ≤ current)
    → (if ltb 27 total then need1 current total else 0) ≤ length g.blocks
    → Grows (if ltb 27 total then need1 current total else 0) g (grow_indirect1 current total g)
unfolding grow_indirect1
grow_indirect1-Grows current total g le m c h = elim (Bool-cases (ltb 27 total)) [
  | inr f ↦ rw f (stays g)
  | inl f ↦
      let big : 27 < total = ground (arith, f) in
      let low = c big in
      let room : need1 current total ≤ length g.blocks = rw f at h in
      let t = take_if-Takes (current == 27) g.inode.indirect1 g.blocks (omega (arith, room)) in
      let p = current - 27 in
      let q = total - 27 in
      let l =
        fill_entries-Takes (min q 128 - p) p t.state g.disk t.rest
          (omega (arith, room, t.counted)) in
      let g' : Growth = record {
        inode = record g.inode { indirect1 = t.state };
        disk = l.state;
        blocks = l.rest;
      } in
      let x =
        grow_indirect2-Grows (max p (min q 128)) q g' (omega (arith, le, low)) (omega (arith, m))
          (λ k. omega (arith, k)) (omega (arith, room, t.counted, l.counted)) in
      rw (f, t.result, l.result, x.result)
        (record {
          after = x.after;
          result = refl;
          counted = omega (arith, x.counted, l.counted, t.counted);
          size = x.size;
        })
]

blocks_sum :
    (n : ℕ)
    → n ≤ 16539
    → with_index_blocks n ≡ n + one_if (ltb 27 n) + one_if (ltb 155 n) + (n - 155 + 127) / 128
blocks_sum n h = ground (arith, h)

-- What all levels together take.
abbrev need : ℕ → ℕ → ℕ
need current total =
    (min total 27 - current)
    + (if ltb 27 total then need1 (max current (min total 27)) total else 0)

need_direct : (p q : ℕ) → p ≤ q → q ≤ 27 → need p q ≡ q - p
need_direct p q h l = ground (arith, h, l)

need_indirect1 : (p q : ℕ) → p ≤ q → 27 < q → q ≤ 155 → need p q ≡ (q - p) + one_if (leb p 27)
need_indirect1 p q h l m = ground (arith, h, l, m)

span_level2 :
    (p q : ℕ)
    → p ≤ q
    → 155 < q
    → need2 (max (max p 27 - 27) 128) (q - 27)
      ≡ one_if (leb p 155) + (q - max p 155) + ((q - 155 + 127) / 128 - (p - 155 + 127) / 128)
span_level2 p q h l = ground (arith, h, l)

need_indirect2 :
    (p q : ℕ)
    → p ≤ q
    → 155 < q
    → need p q
      ≡ (q - p)
        + one_if (leb p 27)
        + one_if (leb p 155)
        + ((q - 155 + 127) / 128 - (p - 155 + 127) / 128)
need_indirect2 p q h l =
    let e = span_level2 p q h l in
    let a : min q 27 ≡ 27 = omega (arith, l) in
    let b : ltb 27 q ≡ true = ground (arith, l) in
    let c : min (q - 27) 128 ≡ 128 = omega (arith, l) in
    let d : ltb 128 (q - 27) ≡ true = ground (arith, l) in
    rw (a, b, c, d, e) (indirect1_part p q h l)
  where
    indirect1_part :
        (p q : ℕ)
        → p ≤ q
        → 155 < q
        → (27 - p)
            + (one_if (max p 27 == 27)
                + (128 - (max p 27 - 27))
                + (one_if (leb p 155)
                    + (q - max p 155)
                    + ((q - 155 + 127) / 128 - (p - 155 + 127) / 128)))
          ≡ (q - p)
            + one_if (leb p 27)
            + one_if (leb p 155)
            + ((q - 155 + 127) / 128 - (p - 155 + 127) / 128)
    indirect1_part p q h l =
        let r = (q - 155 + 127) / 128 - (p - 155 + 127) / 128 in ground (arith, h, l)

needed_sum : (p q : ℕ) → p ≤ q → q ≤ 16539 → need p q ≡ with_index_blocks q - with_index_blocks p
needed_sum p q le m =
    rw (blocks_sum q m, blocks_sum p (omega (arith, le, m)))
      (elim (Bool-cases (leb q 27)) [
        | inl a ↦
            let l : q ≤ 27 = ground (arith, a) in rw (need_direct p q le l) (ground (arith, le, l))
        | inr a ↦ elim (Bool-cases (leb q 155)) [
          | inl b ↦
              let l : 27 < q = ground (arith, a) in
              let k : q ≤ 155 = ground (arith, b) in
              rw (need_indirect1 p q le l k) (ground (arith, le, l, k))
          | inr b ↦
              let l : 155 < q = ground (arith, b) in
              rw (need_indirect2 p q le l) (ground (arith, le, l))
        ]
      ])

all_levels :
    (p q : ℕ) (n : DiskInode) (disk : Disk) (blocks : List ℕ)
    → p ≤ q
    → q ≤ 16539
    → need p q ≡ length blocks
    → (g : Growth) × ((fill_direct (min q 27 - p) p n.direct blocks >>= λ s.
          grow_indirect1
            (max p (min q 27))
            q
            (record { inode = record n { direct = s.0 }; disk = disk; blocks = s.1 }))
        ≡ done g)
      × (g.blocks ≡ [])
      × (g.inode.size ≡ n.size)
all_levels p q n disk blocks le m h =
    let t = fill_direct-Takes (min q 27 - p) p n.direct blocks (omega (arith, h)) in
    let g : Growth = record {
      inode = record n { direct = t.state };
      disk = disk;
      blocks = t.rest;
    } in
    let x =
      grow_indirect1-Grows (max p (min q 27)) q g (omega (arith, le)) m (λ k. omega (arith, k))
        (omega (arith, h, t.counted)) in
    (
      x.after,
      rw t.result x.result,
      none_left x.after.blocks (omega (arith, x.counted, t.counted, h)),
      x.size,
    )
  where
    none_left : (blocks : List ℕ) → length blocks ≡ 0 → blocks ≡ []
    none_left [] e = refl
    none_left (v ∷ blocks) e = absurd (omega (arith, e))

done_injective : {a b : ℕ} → done a ≡ done b → a ≡ b
done_injective e = cc e

-- `increase_size` to at most 16539 data blocks, from a list of as many blocks as
-- `blocks_num_needed` says, does not panic, uses the whole list, and leaves an inode of the new size.
pub increase_size_lem :
    (n : DiskInode) (new_size : ℕ) (blocks : List ℕ) (disk : Disk)
    → n.size ≤ new_size
    → new_size ≤ 8467968
    → blocks_num_needed n new_size ≡ done (length blocks)
    → (g : Growth) × (increase_size n new_size blocks disk ≡ done g)
      × (g.blocks ≡ [])
      × (g.inode.size ≡ new_size)
unfolding increase_size blocks_num_needed data_blocks data_blocks_of total_blocks
increase_size_lem n new_size blocks disk le m h =
    let p = (n.size + 511) % 4294967296 / 512 in
    let q = (new_size + 511) % 4294967296 / 512 in
    let l : p ≤ q = omega (arith, le, m) in
    let k : q ≤ 16539 = omega (arith, m) in
    let ok : leb n.size new_size ≡ true = ground (arith, le) in
    let c = done_injective (rw (ok, assert) at h) in
    all_levels p q (record n { size = new_size }) disk blocks l k
      (needed_sum p q l k ∙ no_wrap p q l k ∙ c)
  where
    no_wrap :
        (p q : ℕ)
        → p ≤ q
        → q ≤ 16539
        → with_index_blocks q - with_index_blocks p
          ≡ with_index_blocks q % 4294967296 - with_index_blocks p % 4294967296
    no_wrap p q l k = rw (blocks_sum q k, blocks_sum p (omega (arith, l, k))) (ground (arith, l, k))
