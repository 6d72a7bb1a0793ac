-- ===== src/Micro/Bitmap.antt =====
-- components/src/micro_fs/bitmap.rs: allocation of bits in blocks of 64 words. The block cache shows
-- every block as the words that were last written to it.
pub mod Words
pub mod Bits
pub mod Alloc
use nimloth_os.Prelude.{
  ℕ, zero, suc, ◌+◌, ◌-◌, ◌*◌, ◌/◌, ◌%◌, ◌^◌, Bool, true, false, ◌&&◌, Option, none, some, ◌==◌,
  if◌then◌else◌, Outcome, done, panic, assert, ◌>>=◌, ◌>>◌,
}

-- `BLOCK_SZ * 8` for blocks of 512 bytes.
abbrev pub block_bits : ℕ
block_bits = 4096

-- The words of each block, by the block's number and the word's index: the contents of the device
-- as the cache presents them.
abbrev pub Blocks : Type 0
Blocks = ℕ → ℕ → ℕ

abbrev pub store : Blocks → ℕ → ℕ → ℕ → Blocks
store blocks block pos word b i = if (b == block) && (i == pos) then word else blocks b i

pub record Bitmap : Type 0 where
  pub start_block_id : ℕ
  pub blocks : ℕ

abbrev pub new : ℕ → ℕ → Bitmap
new start_block_id blocks = record { start_block_id = start_block_id; blocks = blocks }

-- `u64::trailing_ones` over at most `n` bits.
unfoldable pub trailing_ones : ℕ → ℕ → ℕ
trailing_ones zero word = 0
trailing_ones (suc n) word = if word % 2 == 1 then suc (trailing_ones n (word / 2)) else 0

-- `word & (1 << k) > 0`
unfoldable pub test_bit : ℕ → ℕ → Bool
test_bit word zero = word % 2 == 1
test_bit word (suc k) = test_bit (word / 2) k

-- `word | 1 << k`
unfoldable pub set_bit : ℕ → ℕ → ℕ
unfolding test_bit
set_bit word k = if test_bit word k then word else word + 2 ^ k

-- `iter().enumerate().find(..)` over the `n` words from `pos` on.
unfoldable pub find_word : ℕ → ℕ → (ℕ → ℕ) → Option ℕ
find_word zero pos words = none
find_word (suc n) pos words =
    let rest = find_word n (pos + 1) words in if words pos == 2 ^ 64 - 1 then rest else some pos

-- The loop of `alloc` over the `n` blocks from `block_id` on.
unfoldable pub alloc_loop : Bitmap → ℕ → ℕ → Blocks → Blocks × Option ℕ
unfolding find_word set_bit trailing_ones
alloc_loop bitmap zero block_id blocks = (blocks, none)
alloc_loop bitmap (suc n) block_id blocks =
    let block = block_id + bitmap.start_block_id in
    let rest = alloc_loop bitmap n (block_id + 1) blocks in
    elim (find_word 64 0 (blocks block)) [
      | none ↦ rest
      | some pos ↦
          let inner_pos = trailing_ones 64 (blocks block pos) in
          (
            store blocks block pos (set_bit (blocks block pos) inner_pos),
            some (block_id * block_bits + pos * 64 + inner_pos),
          )
    ]

unfoldable pub alloc : Bitmap → Blocks → Blocks × Option ℕ
unfolding alloc_loop
alloc bitmap blocks = alloc_loop bitmap bitmap.blocks 0 blocks

abbrev pub decomposition : ℕ → ℕ × ℕ × ℕ
decomposition bit = (bit / block_bits, bit % block_bits / 64, bit % block_bits % 64)

unfoldable pub dealloc : Bitmap → Blocks → ℕ → Outcome Blocks
unfolding test_bit
dealloc bitmap blocks bit =
    let (block_pos, bits64_pos, inner_pos) = decomposition bit in
    let block = block_pos + bitmap.start_block_id in
    let word = blocks block bits64_pos in
    do assert (test_bit word inner_pos); done (store blocks block bits64_pos (word - 2 ^ inner_pos))

abbrev pub maximum : Bitmap → ℕ
maximum bitmap = bitmap.blocks * block_bits
