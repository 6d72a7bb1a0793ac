-- ===== src/Micro/Cache/Refine.antt =====
-- Any run of the cache refines a map from numbers to blocks.
use nimloth_os.Prelude.{
  ℕ, ◌+◌, ◌≡◌, ◌≢◌, ◌<◌, refl, ap, sym, ◌∙◌, inl, inr, Bool-cases, Option-cases, ==_refl, ==_eq,
  true, Option, none, some, List, [], ◌∷◌, ◌++◌, ◌==◌, leb, if◌then◌else◌, length, arith, subst,
  fun_ext, Outcome, done, panic, ◌>>=◌,
}
use nimloth_os.Micro.Cache.{
  Block, BlockDevice, IsLawful, BlockCache, BlockCacheManager, find_cached, update_cached, evict,
  with_handle, without_handle, new, sync, make_room, block_cache, release, modify, modify_cached,
  change_window, block_cache_sync_all, block_cache_size, block_sz,
}
use nimloth_os.Micro.Cache.Queue.{
  update_absent, find_cached_id, find_cached-append, find_updated, Evict, evicted, all_held,
  evict-Evict,
}
use nimloth_os.Micro.Cache.View.{
  contents, IsValid, Keeps, evict-Keeps, push-Keeps, update-IsValid, update-contents,
}
use nimloth_os.Micro.Cache.Writeback.{synced, sync_all-Keeps}

-- What clients do: fetch a handle of a block, drop one, change bytes through one, synchronise.
pub data Op : Type 0 where
  fetch drop : ℕ → Op
  change : (b offset size : ℕ) → (Block → Block) → Op
  flush : Op

unfoldable pub run_op : (B : BlockDevice) → Op → BlockCacheManager B → Outcome (BlockCacheManager B)
unfolding block_cache release modify_cached block_cache_sync_all
run_op B (fetch b) m = block_cache B m b
run_op B (drop b) m = done (release B m b)
run_op B (change b offset size f) m = modify_cached B m b offset size f
run_op B flush m = done (block_cache_sync_all B m)

unfoldable pub run :
    (B : BlockDevice) → List Op → BlockCacheManager B → Outcome (BlockCacheManager B)
unfolding run_op
run B [] m = done m
run B (op ∷ ops) m = run_op B op m >>= λ m'. run B ops m'

-- The same on a plain map: only `change` does anything.
abbrev pub spec_op : Op → (ℕ → Block) → ℕ → Block
spec_op (change b offset size f) s j = if b == j then change_window offset size f (s b) else s j
spec_op (fetch b) s j = s j
spec_op (drop b) s j = s j
spec_op flush s j = s j

abbrev pub spec_run : List Op → (ℕ → Block) → ℕ → Block
spec_run [] s = s
spec_run (op ∷ ops) s = spec_run ops (spec_op op s)

spec_run-ext :
    (ops : List Op) (s t : ℕ → Block)
    → ((b : ℕ) → s b ≡ t b)
    → (b : ℕ) → spec_run ops s b ≡ spec_run ops t b
spec_run-ext ops s t h b = ap (λ (u : ℕ → Block). spec_run ops u b) (fun_ext h)

-- A valid cache that shows the blocks `s`.
pub record After (B : BlockDevice) (m : BlockCacheManager B) (s : ℕ → Block) : Type 0 where
  pub valid : IsValid B m
  pub view : (b : ℕ) → contents B m b ≡ s b

-- The results of `block_cache`.
pub data Fetch (B : BlockDevice) (m : BlockCacheManager B) (b : ℕ)
    : Outcome (BlockCacheManager B) → Type 0 where
  fetched :
      {m' : BlockCacheManager B}
      → Keeps B m m'
      → find_cached m'.queue b ≢ none
      → Fetch B m b (done m')
  run_out :
      length m.queue ≡ block_cache_size
      → find_cached m.queue b ≡ none
      → ((j : ℕ) (c : BlockCache) → find_cached m.queue j ≡ some c → 0 < c.handles)
      → Fetch B m b panic

module _ (B : BlockDevice) (law : IsLawful B) where
  handle-Keeps :
      (m : BlockCacheManager B) (b : ℕ) (g : BlockCache → BlockCache) (c : BlockCache)
      → IsValid B m
      → find_cached m.queue b ≡ some c
      → (g c).block_id ≡ c.block_id
      → (g c).cache ≡ c.cache
      → (g c).modified ≡ c.modified
      → Keeps B m (record m { queue = update_cached m.queue b g })
  handle-Keeps m b g c v h ki kc km =
      let k : (g c).block_id ≡ b = ki ∙ find_cached_id m.queue b c h in
      record {
        valid = update-IsValid B law m b g c v h k λ n. (sym km ∙ n, kc);
        same = λ j. elim (Bool-cases (b == j)) [
          | inl e ↦
              let s : b ≡ j = ==_eq b j e in
              let q : find_cached m.queue j ≡ some c = rw s at h in
              update-contents B law m b g c j v h k ∙ (rw e (kc ∙ sym (cached m j c q)))
          | inr e ↦ update-contents B law m b g c j v h k ∙ (rw e refl)
        ];
      }
    where
      cached :
          (m : BlockCacheManager B) (j : ℕ) (c : BlockCache)
          → find_cached m.queue j ≡ some c
          → contents B m j ≡ c.cache
      cached m j c q = unfold contents in rw q refl

  Keeps-trans : {m m' m'' : BlockCacheManager B} → Keeps B m m' → Keeps B m' m'' → Keeps B m m''
  Keeps-trans a b = record { valid = b.valid; same = λ j. b.same j ∙ a.same j }

  push-Fetch :
      (m m' : BlockCacheManager B) (b : ℕ)
      → Keeps B m m'
      → find_cached m'.queue b ≡ none
      → length m'.queue < block_cache_size
      → Fetch B m b
          (done (record m' { queue = m'.queue ++ (with_handle (new B b m'.device) ∷ []) }))
  push-Fetch m m' b k free room =
      fetched (Keeps-trans k (push-Keeps B law m' b k.valid free room)) λ e.
        let f : find_cached (m'.queue ++ (with_handle (new B b m'.device) ∷ [])) b
            ≡ some (with_handle (new B b m'.device)) =
          find_cached-append m'.queue (with_handle (new B b m'.device)) b free
          ∙ (rw (==_refl b) refl) in
        cc (e, f)

  room-Fetch :
      (m : BlockCacheManager B) (b : ℕ) (r : Option (BlockCache × List BlockCache))
      → IsValid B m
      → find_cached m.queue b ≡ none
      → length m.queue ≡ block_cache_size
      → Evict m.queue r
      → Fetch B m b (
          elim r [
            | none ↦ panic
            | some (c, rest) ↦ done (record { queue = rest; device = (sync B c m.device).1 })
          ]
          >>= λ m'. done (record m' { queue = m'.queue ++ (with_handle (new B b m'.device) ∷ []) }))
  room-Fetch m b r v free n (all_held f) = run_out n free f
  room-Fetch m b r v free n (evicted {c = c} {rest = rest} x) =
      push-Fetch m (record { queue = rest; device = (sync B c m.device).1 }) b
        (evict-Keeps B law m c rest v x)
        (elim (Bool-cases (c.block_id == b)) [
          | inl e ↦ let y : find_cached m.queue b ≡ some c = x.kept b ∙ (rw e refl) in cc (y, free)
          | inr e ↦ sym (x.kept b ∙ (rw e refl)) ∙ free
        ])
        (omega (arith, x.shorter, n))

  -- On a device whose reads and writes succeed, `block_cache` gives a handle of the block and changes
  -- no block's contents, whether the block was cached, there was room for it, or another one had to go;
  -- it panics only where sixteen other blocks are cached and all of them have handles.
  pub block_cache-Fetch :
      (m : BlockCacheManager B) (b : ℕ) → IsValid B m → Fetch B m b (block_cache B m b)
  unfolding block_cache make_room
  block_cache-Fetch m b v = elim (Option-cases (find_cached m.queue b)) [
    | inr (c, e) ↦
        rw (e, block_cache)
          (fetched (handle-Keeps m b with_handle c v e refl refl refl) λ n.
            let y : find_cached (update_cached m.queue b with_handle) b ≡ some (with_handle c) =
              find_updated m.queue b with_handle c b v.distinct e (find_cached_id m.queue b c e)
              ∙ (rw (==_refl b) refl) in
            cc (y, n))
    | inl e ↦
        rw (e, block_cache)
          (elim (Bool-cases (length m.queue == block_cache_size)) [
            | inl k ↦
                rw (k, make_room)
                  (room-Fetch m b (evict m.queue) v e (==_eq (length m.queue) block_cache_size k)
                    (evict-Evict m.queue v.distinct))
            | inr k ↦
                rw (k, make_room)
                  (push-Fetch m m b (record { valid = v; same = λ j. refl }) e
                    (ground (arith, v.bounded)))
          ])
  ]

  done_injective : {x y : BlockCacheManager B} → done x ≡ done y → x ≡ y
  done_injective e = cc e

  Keeps-After : {m x m' : BlockCacheManager B} → Keeps B m x → x ≡ m' → After B m' (contents B m)
  Keeps-After {m} {x} k e =
      subst (λ (y : BlockCacheManager B). After B y (contents B m)) e
        (record { valid = k.valid; view = k.same })

  cached_contents :
      (m : BlockCacheManager B) (b : ℕ) (c : BlockCache)
      → find_cached m.queue b ≡ some c
      → contents B m b ≡ c.cache
  unfolding contents
  cached_contents m b c h = rw h refl

  release-Keeps : (m : BlockCacheManager B) (b : ℕ) → IsValid B m → Keeps B m (release B m b)
  unfolding release
  release-Keeps m b v = elim (Option-cases (find_cached m.queue b)) [
    | inr (c, e) ↦ handle-Keeps m b without_handle c v e refl refl refl
    | inl e ↦
        subst (λ (q : List BlockCache). Keeps B m (record m { queue = q }))
          (sym (update_absent m.queue b without_handle e)) (record { valid = v; same = λ j. refl })
  ]

  changed_block : BlockCache → ℕ → ℕ → (Block → Block) → BlockCache
  changed_block c offset size f = record c {
    modified = true;
    cache = change_window offset size f c.cache;
  }

  change-After :
      (m : BlockCacheManager B) (b offset size : ℕ) (f : Block → Block) (c : BlockCache)
      → IsValid B m
      → find_cached m.queue b ≡ some c
      → After B
          (record m { queue = update_cached m.queue b (λ _. changed_block c offset size f) })
          (spec_op (change b offset size f) (contents B m))
  unfolding changed_block
  change-After m b offset size f c v h =
      let c' = changed_block c offset size f in
      let k = find_cached_id m.queue b c h in
      record {
        valid = update-IsValid B law m b (λ _. c') c v h k λ n. cc n;
        view = λ j.
            update-contents B law m b (λ _. c') c j v h k ∙ (rw (cached_contents m b c h) refl);
      }

  -- One operation, on the cache and on the map.
  op-After :
      (op : Op) (m m' : BlockCacheManager B)
      → IsValid B m
      → run_op B op m ≡ done m'
      → After B m' (spec_op op (contents B m))
  unfolding run_op
  op-After (fetch b) m m' v h = fetch_after (block_cache B m b) (block_cache-Fetch m b v) h
    where
      fetch_after :
          (r : Outcome (BlockCacheManager B))
          → Fetch B m b r
          → r ≡ done m'
          → After B m' (contents B m)
      fetch_after r (fetched {m' = x} k n) e = Keeps-After k (done_injective e)
      fetch_after r (run_out a b c) e = cc e
  op-After (drop b) m m' v h = Keeps-After (release-Keeps m b v) (done_injective h)
  op-After (change b offset size f) m m' v h = elim (Option-cases (find_cached m.queue b)) [
    | inl e ↦ cc (rw (e, modify_cached) at h)
    | inr (c, e) ↦
        let h1 : (modify c offset size f >>= λ c'.
        done (record m { queue = update_cached m.queue b (λ _. c') }))
            ≡ done m' =
          rw (e, modify_cached) at h in
        elim (Bool-cases (leb (offset + size) block_sz)) [
          | inr k ↦ cc (rw (k, modify) at h1)
          | inl k ↦
              let h2 = rw (k, modify) at h1 in
              subst
                (λ (y : BlockCacheManager B).
                  After B y (spec_op (change b offset size f) (contents B m)))
                (done_injective h2) (unfold changed_block in change-After m b offset size f c v e)
        ]
  ]
  op-After flush m m' v h = Keeps-After (sync_all-Keeps B law m v) (done_injective h)

  split_run :
      (r : Outcome (BlockCacheManager B)) (ops : List Op) (m' : BlockCacheManager B)
      → (r >>= λ x. run B ops x) ≡ done m'
      → (m1 : BlockCacheManager B) × (r ≡ done m1) × (run B ops m1 ≡ done m')
  split_run (done m1) ops m' h = (m1, refl, h)
  split_run panic ops m' h = cc h

  -- On a device whose reads and writes succeed, whatever clients fetch, drop, change and synchronise, in any order and with any evictions on the
  -- way: when no operation panicked, every block holds what the changes make of a plain map of
  -- blocks, and a final `block_cache_sync_all` brings exactly that to the device.
  pub cache_refines :
      (ops : List Op) (m m' : BlockCacheManager B)
      → IsValid B m
      → run B ops m ≡ done m'
      → After B m' (spec_run ops (contents B m))
        × ((b : ℕ)
            → B.read_block (block_cache_sync_all B m').device b ≡ spec_run ops (contents B m) b)
  unfolding run
  cache_refines [] m m' v h =
      let a = Keeps-After (record { valid = v; same = λ j. refl }) (done_injective h) in
      (a, λ b. synced B law m' b a.valid ∙ a.view b)
  cache_refines (op ∷ ops) m m' v h =
      let (m1, e, g) = split_run (run_op B op m) ops m' h in
      let a = op-After op m m1 v e in
      let (x, y) = cache_refines ops m1 m' a.valid g in
      let q = spec_run-ext ops (contents B m1) (spec_op op (contents B m)) a.view in
      (record { valid = x.valid; view = λ b. x.view b ∙ q b }, λ b. y b ∙ q b)
