-- ===== src/Micro/Cache.antt =====
-- components/src/micro_fs/block_cache.rs and block_dev.rs: at most sixteen blocks of the device are
-- kept in memory, and written back when they are dropped or synchronised.
pub mod Queue
pub mod View
pub mod Writeback
pub mod Refine
use nimloth_os.Prelude.{
  ℕ, ◌+◌, ◌-◌, ◌≡◌, Bool, true, false, ◌&&◌, Option, none, some, List, [], ◌∷◌, ◌++◌, ◌==◌, leb,
  ltb, if◌then◌else◌, length, Outcome, done, panic, assert, ◌>>=◌, ◌>>◌,
}

abbrev pub block_sz : ℕ
block_sz = 512

abbrev pub block_cache_size : ℕ
block_cache_size = 16

-- The bytes of a block, by offset.
abbrev pub Block : Type 0
Block = ℕ → ℕ

-- The trait `BlockDevice`, over what a device is, for devices whose reads and writes succeed: an
-- implementation of the trait panics where they do not.
pub record BlockDevice : Type 1 where
  pub Device : Type 0
  pub read_block : Device → ℕ → Block
  pub write_block : Device → ℕ → Block → Device

-- A block reads back what was last written to it.
pub record IsLawful (B : BlockDevice) : Type 0 where
  pub read-write :
      (d : B.Device) (b : ℕ) (v : Block) (j : ℕ)
      → B.read_block (B.write_block d b v) j ≡ (if b == j then v else B.read_block d j)

-- `handles` counts the clones of the `Arc` outside the queue.
pub record BlockCache : Type 0 where
  pub cache : Block
  pub block_id : ℕ
  pub modified : Bool
  pub handles : ℕ

-- The part of a block that `mut_at` at an offset lends, changed by a function.
abbrev pub change_window : ℕ → ℕ → (Block → Block) → Block → Block
change_window offset size f block k =
    if leb offset k && ltb k (offset + size)
    then f (λ i. block (offset + i)) (k - offset)
    else block k

unfoldable pub modify : BlockCache → ℕ → ℕ → (Block → Block) → Outcome BlockCache
modify c offset size f = do
  assert (leb (offset + size) block_sz)
  done (record c { modified = true; cache = change_window offset size f c.cache })

unfoldable pub find_cached : List BlockCache → ℕ → Option BlockCache
find_cached [] b = none
find_cached (c ∷ queue) b =
    let rest = find_cached queue b in if c.block_id == b then some c else rest

-- A change of the cached block of a number, which its handles share.
unfoldable pub update_cached : List BlockCache → ℕ → (BlockCache → BlockCache) → List BlockCache
update_cached [] b g = []
update_cached (c ∷ queue) b g = (if c.block_id == b then g c else c) ∷ update_cached queue b g

-- The first block that only the queue holds, and the queue without it.
unfoldable pub evict : List BlockCache → Option (BlockCache × List BlockCache)
evict [] = none
evict (c ∷ queue) =
    let rest = evict queue in
    if c.handles == 0
    then some (c, queue)
    else elim rest [ none ↦ none | some (found, others) ↦ some (found, c ∷ others) ]

abbrev pub with_handle : BlockCache → BlockCache
with_handle c = record c { handles = c.handles + 1 }

abbrev pub without_handle : BlockCache → BlockCache
without_handle c = record c { handles = c.handles - 1 }

module _ (B : BlockDevice) where
  pub record BlockCacheManager : Type 0 where
    pub queue : List BlockCache
    pub device : B.Device

  abbrev pub new : ℕ → B.Device → BlockCache
  new b d = record { cache = B.read_block d b; block_id = b; modified = false; handles = 0 }

  -- `BlockCache::sync`: the block and the device after it.
  unfoldable pub sync : BlockCache → B.Device → BlockCache × B.Device
  sync c d =
      if c.modified
      then (record c { modified = false }, B.write_block d c.block_id c.cache)
      else (c, d)

  -- The full queue gives up a block that nobody else holds, which is synchronised as it is dropped.
  unfoldable pub make_room : BlockCacheManager → Outcome BlockCacheManager
  unfolding sync evict
  make_room m =
      if length m.queue == block_cache_size
      then elim (evict m.queue) [
        | none ↦ panic
        | some (c, rest) ↦ done (record { queue = rest; device = (sync c m.device).1 })
      ]
      else done m

  unfoldable pub block_cache : BlockCacheManager → ℕ → Outcome BlockCacheManager
  unfolding make_room find_cached update_cached
  block_cache m b = elim (find_cached m.queue b) [
    | some _ ↦ done (record m { queue = update_cached m.queue b with_handle })
    | none ↦ make_room m >>= λ m'.
        done (record m' { queue = m'.queue ++ (with_handle (new b m'.device) ∷ []) })
  ]

  -- A handle of a block goes out of scope.
  unfoldable pub release : BlockCacheManager → ℕ → BlockCacheManager
  unfolding update_cached
  release m b = record m { queue = update_cached m.queue b without_handle }

  -- `modify` through a handle, which the block of that number still has.
  unfoldable pub modify_cached :
      BlockCacheManager → ℕ → ℕ → ℕ → (Block → Block) → Outcome BlockCacheManager
  unfolding modify find_cached update_cached
  modify_cached m b offset size f = elim (find_cached m.queue b) [
    | none ↦ panic
    | some c ↦ modify c offset size f >>= λ c'.
        done (record m { queue = update_cached m.queue b (λ _. c') })
  ]

  unfoldable pub sync_loop : List BlockCache → B.Device → List BlockCache × B.Device
  unfolding sync
  sync_loop [] d = ([], d)
  sync_loop (c ∷ queue) d =
      let (c', d') = sync c d in let (queue', d'') = sync_loop queue d' in (c' ∷ queue', d'')

  unfoldable pub block_cache_sync_all : BlockCacheManager → BlockCacheManager
  unfolding sync_loop
  block_cache_sync_all m =
      let (queue, device) = sync_loop m.queue m.device in record { queue = queue; device = device }
