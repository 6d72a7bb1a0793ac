-- ===== src/Micro/Bitmap/Bits.antt =====
-- A bitmap as the sequence of its bits.
use nimloth_os.Prelude.{
  ℕ, ◌+◌, ◌*◌, ◌/◌, ◌%◌, ◌^◌, ◌≡◌, ◌<◌, refl, inl, inr, Bool, Bool-cases, false, ◌&&◌, ◌==◌,
  if◌then◌else◌, arith,
}
use nimloth_os.Micro.Bitmap.{Bitmap, Blocks, store, block_bits, test_bit}

unfoldable pub bit_at : Bitmap → Blocks → ℕ → Bool
bit_at bitmap blocks bit =
    test_bit (blocks (bit / block_bits + bitmap.start_block_id) (bit % block_bits / 64))
      (bit % block_bits % 64)

-- every word is a `u64`
abbrev pub AreWords : Blocks → Type 0
AreWords blocks = (b i : ℕ) → blocks b i < 2 ^ 64

-- the number of a bit from its place
abbrev pub place : ℕ → ℕ → ℕ → ℕ
place block_id pos inner = block_id * block_bits + pos * 64 + inner

pub bit_at-place :
    (bitmap : Bitmap) (blocks : Blocks) (block_id pos inner : ℕ)
    → pos < 64
    → inner < 64
    → bit_at bitmap blocks (place block_id pos inner)
      ≡ test_bit (blocks (block_id + bitmap.start_block_id) pos) inner
unfolding bit_at
bit_at-place bitmap blocks block_id pos inner hp hi =
    let a : place block_id pos inner / block_bits ≡ block_id = omega (arith, hp, hi) in
    let b : place block_id pos inner % block_bits / 64 ≡ pos = omega (arith, hp, hi) in
    let c : place block_id pos inner % block_bits % 64 ≡ inner = omega (arith, hp, hi) in
    rw (a, b, c) refl

-- Storing a word changes the bits of that word as it says, and no other.
pub store-bit_at :
    (bitmap : Bitmap) (blocks : Blocks) (block_id pos inner word : ℕ) (v : Bool)
    → pos < 64
    → inner < 64
    → ((j : ℕ)
        → test_bit word j
          ≡ (if inner == j then v else test_bit (blocks (block_id + bitmap.start_block_id) pos) j))
    → (c : ℕ)
    → bit_at bitmap (store blocks (block_id + bitmap.start_block_id) pos word) c
      ≡ (if place block_id pos inner == c then v else bit_at bitmap blocks c)
unfolding bit_at
store-bit_at bitmap blocks block_id pos inner word v hp hi h c =
    elim (Bool-cases (
      (c / block_bits + bitmap.start_block_id == block_id + bitmap.start_block_id)
      && (c % block_bits / 64 == pos))) [
        | inl e ↦
            let eb : c / block_bits ≡ block_id = ground arith in
            let ep : c % block_bits / 64 ≡ pos = ground arith in
            let same : (place block_id pos inner == c) ≡ (inner == c % block_bits % 64) =
              ground (arith, eb, ep) in
            rw (e, same, h (c % block_bits % 64), eb, ep) refl
        | inr e ↦
            let other : (place block_id pos inner == c) ≡ false = ground (arith, e) in
            rw (e, other) refl
      ]
