-- ===== src/Tests/Blocks.antt =====
-- The block cache and the layout of files at concrete devices.
use nimloth_os.Prelude.{
  ℕ, ◌+◌, ◌-◌, ◌≤◌, ◌<◌, ◌≡◌, refl, true, false, ◌&&◌, List, [], ◌∷◌, length, get_or, ◌==◌, leb,
  ltb, if◌then◌else◌, arith, done, panic, ◌>>=◌,
}
use nimloth_os.Micro.Cache.{
  Block, BlockDevice, IsLawful, BlockCacheManager, block_cache, block_cache_sync_all, change_window,
  find_cached,
}
use nimloth_os.Micro.Cache.View.{contents, IsValid}
use nimloth_os.Micro.Cache.Refine.{
  Op, fetch, drop, change, flush, run, spec_run, After, Fetch, block_cache-Fetch, cache_refines,
}
use nimloth_os.Micro.Layout.{Disk, DiskInode, file_type, block_id, blocks_num_needed, total_blocks}
use nimloth_os.Micro.Layout.Grow.{Growth, increase_size}
use nimloth_os.Micro.Layout.Grow.Needed.{increase_size_lem}
use nimloth_os.Micro.Layout.Grow.Limit.{increase_size-panic}
use nimloth_os.Micro.Layout.Clear.{clear_size}
use nimloth_os.Micro.Layout.Clear.Count.{clear_size_lem}
use nimloth_os.Micro.Layout.Data.{read_at, write_at, bytes_from}
use nimloth_os.Micro.Layout.Data.Read.{data_block, file_byte, read_at_lem}
use nimloth_os.Micro.Layout.Data.Separate.{IsFile, OnlyData}
use nimloth_os.Micro.Layout.Data.Flat.{write_end, write_at_lem, read_at-write_at}

-- A device that is a map from numbers to blocks.
abbrev map_device : BlockDevice
map_device = record {
  Device = ℕ → Block;
  read_block = λ d b. d b;
  write_block = λ d b v j. if b == j then v else d j;
}

map_device-IsLawful : IsLawful map_device
map_device-IsLawful = record { read-write = λ d b v j. refl }

abbrev nothing_cached : BlockCacheManager map_device
nothing_cached = record { queue = []; device = λ b k. 7 }

abbrev some_ops : List (Op)
some_ops = fetch 3 ∷ change 3 0 2 (λ b k. 9) ∷ drop 3 ∷ flush ∷ []

nothing_cached-IsValid : IsValid map_device nothing_cached
unfolding find_cached
nothing_cached-IsValid = record { distinct = tt; bounded = omega arith; clean = λ b c h. cc h }

abbrev changed_block : Block
changed_block = change_window 0 2 (λ b k. 9) (λ k. 7)

abbrev some_cached : BlockCacheManager map_device
some_cached = record {
  queue = record { cache = changed_block; block_id = 3; modified = false; handles = 0 } ∷ [];
  device = λ j. if 3 == j then changed_block else (λ k. 7);
}

some_ops-run : run map_device some_ops nothing_cached ≡ done some_cached
unfolding run
some_ops-run = refl

cache_refines_example :
    After map_device some_cached (spec_run some_ops (contents map_device nothing_cached))
    × ((b : ℕ)
        → (block_cache_sync_all map_device some_cached).device b
          ≡ spec_run some_ops (contents map_device nothing_cached) b)
cache_refines_example =
    cache_refines map_device map_device-IsLawful some_ops nothing_cached some_cached
      nothing_cached-IsValid some_ops-run

block_cache-Fetch_example :
    Fetch map_device nothing_cached 5 (block_cache map_device nothing_cached 5)
block_cache-Fetch_example =
    block_cache-Fetch map_device map_device-IsLawful nothing_cached 5 nothing_cached-IsValid

-- A file of two data blocks, 10 and 11.
abbrev small_file : DiskInode
small_file = record {
  size = 600;
  direct = λ i. 10 + i;
  indirect1 = 0;
  indirect2 = 0;
  indirect3 = 0;
  type_ = file_type;
}

abbrev blank : Disk
blank b k = 0

small_file-data_block : (disk : Disk) (i : ℕ) → i < 27 → data_block small_file disk i ≡ 10 + i
unfolding block_id
small_file-data_block disk i h = let e : ltb i 27 ≡ true = ground (arith, h) in rw e refl

small_file-IsFile : IsFile small_file blank 2
small_file-IsFile = record {
  bounded = omega arith;
  distinct = λ i j a b e. omega (
    arith,
    a,
    b,
    e,
    small_file-data_block blank i (omega (arith, a)),
    small_file-data_block blank j (omega (arith, b)),
  );
  apart = λ i j a b. let e : ltb i 27 ≡ true = ground (arith, a) in rw e refl;
}

-- The write goes from the first block of the file into the second, and ends with the file.
write_at_lem_example :
    (510 ≤ 600
      → (disk' : Disk) × (write_at small_file blank 510 (1 ∷ 2 ∷ 3 ∷ [])
          ≡ done (disk', write_end small_file 510 (1 ∷ 2 ∷ 3 ∷ []) - 510))
        × ((p : ℕ)
            → p < 1024
            → file_byte small_file disk' p ≡ (
                if leb 510 p && ltb p (write_end small_file 510 (1 ∷ 2 ∷ 3 ∷ []))
                then get_or (1 ∷ 2 ∷ 3 ∷ []) (p - 510) 0
                else file_byte small_file blank p))
        × OnlyData small_file 2 blank disk')
    × (600 < 510 → write_at small_file blank 510 (1 ∷ 2 ∷ 3 ∷ []) ≡ panic)
write_at_lem_example =
    write_at_lem small_file blank 2 510 (1 ∷ 2 ∷ 3 ∷ []) small_file-IsFile (omega arith)

read_at-write_at_example :
    (write_at small_file blank 510 (1 ∷ 2 ∷ 3 ∷ []) >>= λ w. read_at small_file (w.0) 510 3)
    ≡ done (1 ∷ 2 ∷ 3 ∷ [])
read_at-write_at_example =
    read_at-write_at small_file blank 2 510 (1 ∷ 2 ∷ 3 ∷ []) small_file-IsFile (omega arith)
      (omega arith)

read_at_lem_example :
    read_at small_file blank 599 8 ≡ done (bytes_from (file_byte small_file blank) 599 1)
read_at_lem_example = read_at_lem small_file blank 599 8 (omega arith)

-- The two blocks that the first two data blocks of an empty file take.
abbrev empty_file : DiskInode
empty_file = record {
  size = 0;
  direct = λ i. 0;
  indirect1 = 0;
  indirect2 = 0;
  indirect3 = 0;
  type_ = file_type;
}

two_needed : blocks_num_needed empty_file 600 ≡ done 2
unfolding blocks_num_needed
two_needed = refl

increase_size_lem_example :
    (g : Growth) × (increase_size empty_file 600 (10 ∷ 11 ∷ []) blank ≡ done g)
    × (g.blocks ≡ [])
    × (g.inode.size ≡ 600)
increase_size_lem_example =
    increase_size_lem empty_file 600 (10 ∷ 11 ∷ []) blank (omega arith) (omega arith) two_needed

increase_size-panic_example : increase_size small_file 8467969 [] blank ≡ panic
increase_size-panic_example =
    increase_size-panic small_file 8467969 [] blank (omega arith) (omega arith) (omega arith)

clear_size_lem_example :
    (n' : DiskInode) × (freed : List ℕ) × (clear_size small_file blank ≡ done (n', freed))
    × (length freed ≡ total_blocks 600)
    × (n'.size ≡ 0)
clear_size_lem_example = clear_size_lem small_file blank (omega arith)
