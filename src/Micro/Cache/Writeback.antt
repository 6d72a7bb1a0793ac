-- ===== src/Micro/Cache/Writeback.antt =====
-- `block_cache_sync_all` brings the device up to date.
use nimloth_os.Prelude.{
  ℕ, suc, ◌≡◌, refl, ap, sym, ◌∙◌, inl, inr, Bool, Bool-cases, Option-cases, ==_eq, true, false,
  Option, none, some, List, [], ◌∷◌, ◌==◌, ◌&&◌, if◌then◌else◌, length, arith,
}
use nimloth_os.Micro.Cache.{
  Block, BlockDevice, IsLawful, BlockCache, BlockCacheManager, find_cached, sync, sync_loop,
  block_cache_sync_all,
}
use nimloth_os.Micro.Cache.Queue.{Distinct}
use nimloth_os.Micro.Cache.View.{held_or, contents, IsValid, Keeps, device-sync}

abbrev cleaned : BlockCache → BlockCache
cleaned c = record c { modified = false }

abbrev cleaned_option : Option BlockCache → Option BlockCache
cleaned_option none = none
cleaned_option (some c) = some (cleaned c)

abbrev written_or : Option BlockCache → Block → Block
written_or none v = v
written_or (some c) v = if c.modified then c.cache else v

and_true : (a b : Bool) → b ≡ true → (a && b) ≡ a
and_true a b h = ground arith

module _ (B : BlockDevice) (law : IsLawful B) where
  sync-cleaned : (c : BlockCache) (d : B.Device) → (sync B c d).0 ≡ cleaned c
  unfolding sync
  sync-cleaned c d = elim (Bool-cases c.modified) [ inl e ↦ rw e refl | inr e ↦ rw e refl ]

  find_cached-sync_loop :
      (queue : List BlockCache) (d : B.Device) (j : ℕ)
      → find_cached (sync_loop B queue d).0 j ≡ cleaned_option (find_cached queue j)
  unfolding sync_loop find_cached
  find_cached-sync_loop [] d j = refl
  find_cached-sync_loop (c ∷ queue) d j =
      let ih = find_cached-sync_loop queue (sync B c d).1 j in
      rw (sync-cleaned c d)
        (elim (Bool-cases (c.block_id == j)) [ inl e ↦ rw e refl | inr e ↦ rw e ih ])

  device-sync_loop :
      (queue : List BlockCache) (d : B.Device) (j : ℕ)
      → Distinct queue
      → B.read_block (sync_loop B queue d).1 j ≡ written_or (find_cached queue j) (B.read_block d j)
  unfolding sync_loop find_cached
  device-sync_loop [] d j u = refl
  device-sync_loop (c ∷ queue) d j u =
      let ih = device-sync_loop queue (sync B c d).1 j u.1 in
      let s = device-sync B law c d j in
      elim (Bool-cases (c.block_id == j)) [
        | inl e ↦
            let here : c.block_id ≡ j = ==_eq c.block_id j e in
            let gone : find_cached queue j ≡ none = rw here at u.0 in
            ih ∙ (rw (gone, e) (s ∙ (rw (and_true c.modified (c.block_id == j) e) refl)))
        | inr e ↦
            let n : (c.modified && (c.block_id == j)) ≡ false = ground arith in
            let kept : B.read_block (sync B c d).1 j ≡ B.read_block d j = s ∙ (rw n refl) in
            ih ∙ (rw (e, kept) refl)
      ]

  Distinct-sync_loop :
      (queue : List BlockCache) (d : B.Device) → Distinct queue → Distinct (sync_loop B queue d).0
  unfolding sync_loop
  Distinct-sync_loop [] d u = tt
  Distinct-sync_loop (c ∷ queue) d u =
      let f = find_cached-sync_loop queue (sync B c d).1 c.block_id in
      rw (sync-cleaned c d) (f ∙ (rw u.0 refl), Distinct-sync_loop queue (sync B c d).1 u.1)

  length-sync_loop :
      (queue : List BlockCache) (d : B.Device) → length (sync_loop B queue d).0 ≡ length queue
  unfolding sync_loop
  length-sync_loop [] d = refl
  length-sync_loop (c ∷ queue) d = ap suc (length-sync_loop queue (sync B c d).1)

  pub synced :
      (m : BlockCacheManager B) (b : ℕ)
      → IsValid B m
      → B.read_block (block_cache_sync_all B m).device b ≡ contents B m b
  unfolding block_cache_sync_all contents
  synced m b v =
      device-sync_loop m.queue m.device b v.distinct
      ∙ (elim (Option-cases (find_cached m.queue b)) [
        | inl e ↦ rw e refl
        | inr (c, e) ↦
            rw e
              (elim (Bool-cases c.modified) [ inl k ↦ rw k refl | inr k ↦ rw k (v.clean b c e k) ])
      ])

  cleaned_cache : (o : Option BlockCache) (v : Block) → held_or (cleaned_option o) v ≡ held_or o v
  cleaned_cache none v = refl
  cleaned_cache (some c) v = refl

  cleaned_source :
      (o : Option BlockCache) (c : BlockCache) (v : Block)
      → cleaned_option o ≡ some c
      → held_or o v ≡ c.cache
  cleaned_source none c v h = cc h
  cleaned_source (some x) c v h = let e : cleaned x ≡ c = cc h in ap (λ (y : BlockCache). y.cache) e

  contents-synced :
      (m : BlockCacheManager B) (b : ℕ)
      → IsValid B m
      → contents B (block_cache_sync_all B m) b ≡ contents B m b
  unfolding contents block_cache_sync_all
  contents-synced m b v = elim (Option-cases (find_cached m.queue b)) [
    | inl e ↦
        let f : find_cached (sync_loop B m.queue m.device).0 b ≡ none =
          find_cached-sync_loop m.queue m.device b ∙ (rw e refl) in
        let d : B.read_block (sync_loop B m.queue m.device).1 b ≡ B.read_block m.device b =
          device-sync_loop m.queue m.device b v.distinct ∙ (rw e refl) in
        rw (f, d, e) refl
    | inr (c, e) ↦
        let f : find_cached (sync_loop B m.queue m.device).0 b ≡ some (cleaned c) =
          find_cached-sync_loop m.queue m.device b ∙ (rw e refl) in
        rw (f, e) refl
  ]

  -- `block_cache_sync_all` writes every block that is cached and modified: afterwards the device alone
  -- holds what the cache and the device held together, and the contents are the same.
  pub sync_all-Keeps :
      (m : BlockCacheManager B) → IsValid B m → Keeps B m (block_cache_sync_all B m)
  unfolding block_cache_sync_all
  sync_all-Keeps m v = record {
    valid = record {
      distinct = Distinct-sync_loop m.queue m.device v.distinct;
      bounded = omega (arith, v.bounded, length-sync_loop m.queue m.device);
      clean = λ b c f g.
          synced m b v
          ∙ (unfold contents in
              cleaned_source (find_cached m.queue b) c (B.read_block m.device b)
                (sym (find_cached-sync_loop m.queue m.device b) ∙ f));
    };
    same = λ b. contents-synced m b v;
  }
