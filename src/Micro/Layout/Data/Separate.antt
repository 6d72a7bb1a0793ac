-- ===== src/Micro/Layout/Data/Separate.antt =====
-- A file whose data blocks are distinct and are not its index blocks stays one when data blocks change.
use nimloth_os.Prelude.{
  ℕ, ◌+◌, ◌-◌, ◌*◌, ◌/◌, ◌%◌, ◌≤◌, ◌<◌, ◌≡◌, ◌≢◌, refl, sym, ◌∙◌, inl, inr, Bool, Bool-cases,
  ==_refl, true, false, ◌||◌, ◌==◌, ltb, if◌then◌else◌, arith,
}
use nimloth_os.Micro.Layout.{Disk, DiskInode, entry, block_id}
use nimloth_os.Micro.Layout.Data.Read.{data_block}

-- The index blocks that `block_id` reads for a position of the first two levels.
abbrev pub is_index : DiskInode → Disk → ℕ → ℕ → Bool
is_index n disk i b =
    if ltb i 27
    then false
    else if ltb i 155
    then n.indirect1 == b
    else (n.indirect2 == b) || (entry disk n.indirect2 ((i - 155) / 128) == b)

pub record IsFile (n : DiskInode) (disk : Disk) (count : ℕ) : Type 0 where
  pub bounded : count ≤ 16539
  pub distinct :
      (i j : ℕ) → i < count → j < count → data_block n disk i ≡ data_block n disk j → i ≡ j
  pub apart : (i j : ℕ) → i < count → j < count → is_index n disk i (data_block n disk j) ≡ false

-- Only data blocks of the file changed.
abbrev pub OnlyData : DiskInode → ℕ → Disk → Disk → Type 0
OnlyData n count disk disk' =
    (b k : ℕ) → ((j : ℕ) → j < count → data_block n disk j ≢ b) → disk' b k ≡ disk b k

module _ (n : DiskInode) (disk disk' : Disk) (count : ℕ) (v : IsFile n disk count)
    (o : OnlyData n count disk disk') where
  index_kept :
      (i b k : ℕ) → i < count → is_index n disk i b ≡ true → entry disk' b k ≡ entry disk b k
  unfolding entry
  index_kept i b k l u =
      let same : (x : ℕ) → disk' b x ≡ disk b x = λ x.
        o b x
          λ j m e. let f : is_index n disk i b ≡ false = rw e at (v.apart i j l m) in cc (u, f) in
      rw (same (4 * k), same (4 * k + 1), same (4 * k + 2), same (4 * k + 3)) refl

  pub block_id-kept : (i : ℕ) → i < count → block_id n disk' i ≡ block_id n disk i
  unfolding block_id
  block_id-kept i l = elim (Bool-cases (ltb i 27)) [
    | inl a ↦ rw a refl
    | inr a ↦ elim (Bool-cases (ltb i 155)) [
      | inl b ↦
          let u : is_index n disk i n.indirect1 ≡ true = rw (a, b) (==_refl n.indirect1) in
          rw (a, b, index_kept i n.indirect1 (i - 27) l u) refl
      | inr b ↦
          let c : ltb i 16539 ≡ true = ground (arith, l, v.bounded) in
          let u : is_index n disk i n.indirect2 ≡ true = rw (a, b, ==_refl n.indirect2) refl in
          let w : is_index n disk i (entry disk n.indirect2 ((i - 155) / 128)) ≡ true =
            rw (a, b, ==_refl (entry disk n.indirect2 ((i - 155) / 128)))
              (true_right (n.indirect2 == entry disk n.indirect2 ((i - 155) / 128))) in
          let g : ltb ((i - 155) / 128) 128 ≡ true = ground (arith, l, v.bounded) in
          rw
            (
              a,
              b,
              c,
              g,
              index_kept i n.indirect2 ((i - 155) / 128) l u,
              index_kept i (entry disk n.indirect2 ((i - 155) / 128)) ((i - 155) % 128) l w,
            )
            refl
    ]
  ]
    where
      true_right : (b : Bool) → (b || true) ≡ true
      true_right true = refl
      true_right false = refl

  pub data_block-kept : (i : ℕ) → i < count → data_block n disk' i ≡ data_block n disk i
  data_block-kept i l = rw (block_id-kept i l) refl

  is_index-kept : (i b : ℕ) → i < count → is_index n disk' i b ≡ is_index n disk i b
  is_index-kept i b l = elim (Bool-cases (ltb i 27)) [
    | inl a ↦ rw a refl
    | inr a ↦ elim (Bool-cases (ltb i 155)) [
      | inl c ↦ rw (a, c) refl
      | inr c ↦
          let u : is_index n disk i n.indirect2 ≡ true = rw (a, c, ==_refl n.indirect2) refl in
          rw (a, c, index_kept i n.indirect2 ((i - 155) / 128) l u) refl
    ]
  ]

  pub IsFile-kept : IsFile n disk' count
  IsFile-kept = record {
    bounded = v.bounded;
    distinct =
        λ i j l m e. v.distinct i j l m (sym (data_block-kept i l) ∙ e ∙ data_block-kept j m);
    apart = λ i j l m.
        let k = data_block-kept j m in
        let s = is_index-kept i (data_block n disk j) l in rw k (s ∙ v.apart i j l m);
  }
