-- ===== src/Micro/Bitmap/Alloc.antt =====
-- `alloc` and `dealloc` of a bitmap.
use nimloth_os.Prelude.{
  ℕ, zero, suc, ◌+◌, ◌-◌, ◌*◌, ◌/◌, ◌%◌, ◌^◌, ◌≡◌, ◌≢◌, ◌≤◌, ◌<◌, refl, inl, inr, Bool-cases, true,
  false, ◌==◌, ==_eq, Option, none, some, if◌then◌else◌, arith, ◌∙◌, sym, done, panic,
}
use nimloth_os.Micro.Bitmap.{
  Bitmap, Blocks, store, block_bits, test_bit, set_bit, trailing_ones, find_word, alloc_loop, alloc,
  dealloc, maximum,
}
use nimloth_os.Micro.Bitmap.Words.{
  test_bit-add, test_bit-sub, add_below, trailing_below, trailing_clear, trailing_set, full_set,
}
use nimloth_os.Micro.Bitmap.Bits.{bit_at, AreWords, place, store-bit_at, bit_at-place}

-- The first word that is not full.
data Search (pos n : ℕ) (words : ℕ → ℕ) : Option ℕ → Type 0 where
  no_word : ((i : ℕ) → pos ≤ i → i < pos + n → words i ≡ 2 ^ 64 - 1) → Search pos n words none
  word_at :
      {q : ℕ}
      → q < pos + n
      → words q ≢ 2 ^ 64 - 1
      → ((i : ℕ) → pos ≤ i → i < q → words i ≡ 2 ^ 64 - 1)
      → Search pos n words (some q)

find_word-Search : (n pos : ℕ) (words : ℕ → ℕ) → Search pos n words (find_word n pos words)
unfolding find_word
find_word-Search zero pos words = no_word λ i a b. absurd (omega (arith, a, b))
find_word-Search (suc n) pos words = elim (Bool-cases (words pos == 2 ^ 64 - 1)) [
  | inr e ↦ rw e (word_at (omega arith) (ground arith) λ i a b. absurd (omega (arith, a, b)))
  | inl e ↦ rw e (extend (==_eq (words pos) (2 ^ 64 - 1) e) (find_word-Search n (pos + 1) words))
]
  where
    here :
        (i : ℕ)
        → pos ≤ i
        → (pos + 1 ≤ i → words i ≡ 2 ^ 64 - 1)
        → words pos ≡ 2 ^ 64 - 1
        → words i ≡ 2 ^ 64 - 1
    here i a rest h = elim (Bool-cases (i == pos)) [
      | inl e ↦ rw (==_eq i pos e) h
      | inr e ↦ rest (ground (arith, a))
    ]

    extend :
        {r : Option ℕ}
        → words pos ≡ 2 ^ 64 - 1
        → Search (pos + 1) n words r
        → Search pos (suc n) words r
    extend full_here (no_word f) =
        no_word λ i a b. here i a (λ c. f i c (omega (arith, b))) full_here
    extend full_here (word_at l ne f) =
        word_at (omega (arith, l)) ne λ i a b. here i a (λ c. f i c b) full_here

-- What `alloc` answers: the lowest clear bit, which it sets, or none where all bits are set.
pub data Allocated (bitmap : Bitmap) (blocks : Blocks) : Blocks × Option ℕ → Type 0 where
  lowest :
      {blocks' : Blocks} {bit : ℕ}
      → bit < maximum bitmap
      → bit_at bitmap blocks bit ≡ false
      → ((c : ℕ) → c < bit → bit_at bitmap blocks c ≡ true)
      → ((c : ℕ) → bit_at bitmap blocks' c ≡ (if bit == c then true else bit_at bitmap blocks c))
      → AreWords blocks'
      → Allocated bitmap blocks (blocks', some bit)
  full :
      ((c : ℕ) → c < maximum bitmap → bit_at bitmap blocks c ≡ true)
      → Allocated bitmap blocks (blocks, none)

module _ (bitmap : Bitmap) (blocks : Blocks) (w : AreWords blocks) where
  -- all bits below those of a block are set
  Before : ℕ → Type 0
  Before block_id = (c : ℕ) → c < block_id * block_bits → bit_at bitmap blocks c ≡ true

  full_word-bit_at :
      (c : ℕ)
      → blocks (c / block_bits + bitmap.start_block_id) (c % block_bits / 64) ≡ 2 ^ 64 - 1
      → bit_at bitmap blocks c ≡ true
  unfolding bit_at
  full_word-bit_at c e =
      full_set 64 (blocks (c / block_bits + bitmap.start_block_id) (c % block_bits / 64))
        (c % block_bits % 64) e (omega arith)

  full_block :
      (block_id : ℕ)
      → Before block_id
      → Search 0 64 (blocks (block_id + bitmap.start_block_id)) none
      → Before (block_id + 1)
  unfolding Before
  full_block block_id b (no_word f) c h = elim (Bool-cases (c / block_bits == block_id)) [
    | inl e ↦ full_word-bit_at c (
        rw (==_eq (c / block_bits) block_id e)
          (f (c % block_bits / 64) (omega arith) (omega arith)))
    | inr e ↦ b c (ground (arith, h))
  ]

  below_place :
      (block_id pos inner : ℕ)
      → Before block_id
      → ((i : ℕ) → i < pos → blocks (block_id + bitmap.start_block_id) i ≡ 2 ^ 64 - 1)
      → ((j : ℕ) → j < inner → test_bit (blocks (block_id + bitmap.start_block_id) pos) j ≡ true)
      → pos < 64
      → inner < 64
      → (c : ℕ) → c < place block_id pos inner
      → bit_at bitmap blocks c ≡ true
  unfolding Before bit_at
  below_place block_id pos inner b f g hp hi c h = elim (Bool-cases (c / block_bits == block_id)) [
    | inr e ↦ b c (ground (arith, h))
    | inl e ↦ elim (Bool-cases (c % block_bits / 64 == pos)) [
      | inl d ↦
          rw (==_eq (c / block_bits) block_id e, ==_eq (c % block_bits / 64) pos d)
            (g (c % block_bits % 64) (ground (arith, h)))
      | inr d ↦
          full_word-bit_at c
            (rw (==_eq (c / block_bits) block_id e) (f (c % block_bits / 64) (ground (arith, h))))
    ]
  ]

  set_bit-test :
      (word inner : ℕ)
      → test_bit word inner ≡ false
      → (j : ℕ) → test_bit (set_bit word inner) j ≡ (if inner == j then true else test_bit word j)
  unfolding set_bit
  set_bit-test word inner clear j = rw clear (test_bit-add inner j word clear)

  store-AreWords : (block pos word : ℕ) → word < 2 ^ 64 → AreWords (store blocks block pos word)
  store-AreWords block pos word h b i = ground (arith, w b i)

  set_bit-width :
      (word inner : ℕ)
      → word < 2 ^ 64
      → inner < 64
      → test_bit word inner ≡ false
      → set_bit word inner < 2 ^ 64
  unfolding set_bit
  set_bit-width word inner h hi clear = rw clear (add_below 64 inner word h hi clear)

  found :
      (block_id pos : ℕ)
      → block_id < bitmap.blocks
      → Before block_id
      → Search 0 64 (blocks (block_id + bitmap.start_block_id)) (some pos)
      → let block = block_id + bitmap.start_block_id in
        let inner = trailing_ones 64 (blocks block pos) in
        Allocated bitmap blocks (
          store blocks block pos (set_bit (blocks block pos) inner),
          some (place block_id pos inner),
        )
  found block_id pos hb b (word_at l ne f) =
      let block = block_id + bitmap.start_block_id in
      let word = blocks block pos in
      let inner = trailing_ones 64 word in
      let hi : inner < 64 = trailing_below 64 word (w block pos) ne in
      let clear : test_bit word inner ≡ false = trailing_clear 64 word hi in
      lowest (omega (arith, hb, l, hi)) (bit_at-place bitmap blocks block_id pos inner l hi ∙ clear)
        (below_place block_id pos inner b (λ i h. f i (omega arith) h)
          (λ j h. trailing_set 64 word j h) l hi)
        (store-bit_at bitmap blocks block_id pos inner (set_bit word inner) true l hi
          (set_bit-test word inner clear))
        (store-AreWords block pos (set_bit word inner)
          (set_bit-width word inner (w block pos) hi clear))

  alloc_loop-Allocated :
      (n block_id : ℕ)
      → block_id + n ≡ bitmap.blocks
      → Before block_id
      → Allocated bitmap blocks (alloc_loop bitmap n block_id blocks)
  unfolding alloc_loop Before
  alloc_loop-Allocated zero block_id e b = full λ c h. b c (omega (arith, e, h))
  alloc_loop-Allocated (suc n) block_id e b =
      go (find_word 64 0 (blocks (block_id + bitmap.start_block_id)))
        (find_word-Search 64 0 (blocks (block_id + bitmap.start_block_id)))
        (alloc_loop-Allocated n (block_id + 1) (omega (arith, e)))
    where
      go :
          (r : Option ℕ)
          → Search 0 64 (blocks (block_id + bitmap.start_block_id)) r
          → (Before (block_id + 1)
              → Allocated bitmap blocks (alloc_loop bitmap n (block_id + 1) blocks))
          → Allocated bitmap blocks (elim r [
            | none ↦ alloc_loop bitmap n (block_id + 1) blocks
            | some pos ↦
                let block = block_id + bitmap.start_block_id in
                let inner_pos = trailing_ones 64 (blocks block pos) in
                (
                  store blocks block pos (set_bit (blocks block pos) inner_pos),
                  some (block_id * block_bits + pos * 64 + inner_pos),
                )
          ])
      go none s ih = ih (full_block block_id b s)
      go (some pos) s ih = found block_id pos (omega (arith, e)) b s

-- `alloc` over words of 64 bits answers the lowest clear bit of the bitmap's blocks and sets that bit
-- and no other; it answers none, and changes nothing, exactly where all bits of these blocks are set.
pub bitmap_alloc :
    (bitmap : Bitmap) (blocks : Blocks)
    → AreWords blocks
    → Allocated bitmap blocks (alloc bitmap blocks)
unfolding alloc Before
bitmap_alloc bitmap blocks w =
    alloc_loop-Allocated bitmap blocks w bitmap.blocks 0 (omega arith)
      λ c h. absurd (omega (arith, h))

-- `dealloc` of a set bit clears that bit and no other; `dealloc` of a clear bit panics.
pub bitmap_dealloc :
    (bitmap : Bitmap) (blocks : Blocks) (bit : ℕ)
    → (bit_at bitmap blocks bit ≡ true
        → (blocks' : Blocks) × (dealloc bitmap blocks bit ≡ done blocks')
          × ((c : ℕ)
              → bit_at bitmap blocks' c ≡ (if bit == c then false else bit_at bitmap blocks c)))
      × (bit_at bitmap blocks bit ≡ false → dealloc bitmap blocks bit ≡ panic)
unfolding dealloc
bitmap_dealloc bitmap blocks bit =
    let block_id = bit / block_bits in
    let pos = bit % block_bits / 64 in
    let inner = bit % block_bits % 64 in
    let word = blocks (block_id + bitmap.start_block_id) pos in
    let hp : pos < 64 = omega arith in
    let hi : inner < 64 = omega arith in
    let here : place block_id pos inner ≡ bit = omega arith in
    let value : bit_at bitmap blocks bit ≡ test_bit word inner = unfold bit_at in refl in
    (
      λ h.
          let t : test_bit word inner ≡ true = sym value ∙ h in
          (
            store blocks (block_id + bitmap.start_block_id) pos (word - 2 ^ inner),
            rw t refl,
            λ c. rw here at (
                store-bit_at bitmap blocks block_id pos inner (word - 2 ^ inner) false hp hi
                  (λ j. test_bit-sub inner j word t) c),
          ),
      λ h. rw (sym value ∙ h) refl,
    )
