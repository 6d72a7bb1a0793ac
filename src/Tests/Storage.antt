-- ===== src/Tests/Storage.antt =====
-- The block file system.
use nimloth_os.Prelude.{◌≡◌, refl, some, ◌==◌, ◌&&◌, if◌then◌else◌, arith}
use nimloth_os.Micro.Bitmap.{Bitmap, Blocks, alloc}
use nimloth_os.Micro.Bitmap.Bits.{AreWords}
use nimloth_os.Micro.Bitmap.Alloc.{Allocated, bitmap_alloc}

abbrev two_blocks : Bitmap
two_blocks = record { start_block_id = 1; blocks = 2 }

-- Bits 0 and 2 are set.
abbrev some_bits : Blocks
some_bits b i = if (b == 1) && (i == 0) then 5 else 0

some_bits-AreWords : AreWords some_bits
some_bits-AreWords b i = ground arith

alloc_test : (alloc two_blocks some_bits).1 ≡ some 1
unfolding alloc
alloc_test = refl

bitmap_alloc_example : Allocated two_blocks some_bits (alloc two_blocks some_bits)
bitmap_alloc_example = bitmap_alloc two_blocks some_bits some_bits-AreWords
