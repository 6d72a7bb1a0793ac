-- ===== src/Micro/Cache/View.antt =====
-- What a block holds, in the cache or on the device, and the operations on it.
use nimloth_os.Prelude.{
  subst, ◌&&◌, ℕ, ◌≡◌, ◌<◌, ◌≤◌, refl, ap, sym, ◌∙◌, inl, inr, Bool-cases, ==_eq, true, false,
  Option, none, some, List, [], ◌∷◌, ◌++◌, ◌==◌, if◌then◌else◌, length, length-append, arith,
}
use mathlib.Core.Option.{some-injective}
use nimloth_os.Micro.Cache.{
  Block, BlockDevice, IsLawful, BlockCache, BlockCacheManager, find_cached, update_cached,
  with_handle, new, sync, block_cache_size,
}
use nimloth_os.Micro.Cache.Queue.{
  Distinct, find_cached-append, Distinct-append, Distinct-update_cached, length-update_cached,
  find_updated, Evicted,
}

abbrev pub held_or : Option BlockCache → Block → Block
held_or none v = v
held_or (some c) v = c.cache

module _ (B : BlockDevice) where
  -- The contents of a block: the cached bytes, or else those of the device.
  unfoldable pub contents : BlockCacheManager B → ℕ → Block
  contents m b = held_or (find_cached m.queue b) (B.read_block m.device b)

  -- A block that is cached and not modified is as on the device.
  pub record IsValid (m : BlockCacheManager B) : Type 0 where
    pub distinct : Distinct m.queue
    pub bounded : length m.queue ≤ block_cache_size
    pub clean :
        (b : ℕ) (c : BlockCache)
        → find_cached m.queue b ≡ some c
        → c.modified ≡ false
        → B.read_block m.device b ≡ c.cache

  -- What keeps the contents: the operations that fetch and drop blocks.
  pub record Keeps (m m' : BlockCacheManager B) : Type 0 where
    pub valid : IsValid m'
    pub same : (b : ℕ) → contents m' b ≡ contents m b

module _ (B : BlockDevice) (law : IsLawful B) where
  pub device-sync :
      (c : BlockCache) (d : B.Device) (j : ℕ)
      → B.read_block (sync B c d).1 j
        ≡ (if c.modified && (c.block_id == j) then c.cache else B.read_block d j)
  unfolding sync
  device-sync c d j = elim (Bool-cases c.modified) [
    | inl e ↦ rw e (law.read-write d c.block_id c.cache j)
    | inr e ↦ rw e refl
  ]

  written :
      (c : BlockCache) (d : B.Device) (b : ℕ)
      → (c.block_id == b) ≡ true
      → (c.modified ≡ false → B.read_block d b ≡ c.cache)
      → B.read_block (sync B c d).1 b ≡ c.cache
  written c d b k clean = elim (Bool-cases c.modified) [
    | inl e ↦ device-sync c d b ∙ (rw (e, k) refl)
    | inr e ↦ device-sync c d b ∙ (rw e (clean e))
  ]

  pub evict-Keeps :
      (m : BlockCacheManager B) (c : BlockCache) (rest : List BlockCache)
      → IsValid B m
      → Evicted m.queue c rest
      → Keeps B m (record { queue = rest; device = (sync B c m.device).1 })
  unfolding contents
  evict-Keeps m c rest v x = record {
    valid = record {
      distinct = x.distinct;
      bounded = omega (arith, x.shorter, v.bounded);
      clean = λ b e f g. elim (Bool-cases (c.block_id == b)) [
        | inl k ↦ let s : c.block_id ≡ b = ==_eq c.block_id b k in cc (f, rw s at x.gone)
        | inr k ↦
            let n : (c.modified && (c.block_id == b)) ≡ false = ground arith in
            device-sync c m.device b ∙ (rw n (v.clean b e (x.kept b ∙ (rw k f)) g))
      ];
    };
    same = λ b. elim (Bool-cases (c.block_id == b)) [
      | inl k ↦
          let s : c.block_id ≡ b = ==_eq c.block_id b k in
          let here : find_cached m.queue b ≡ some c = x.kept b ∙ (rw k refl) in
          let gone : find_cached rest b ≡ none = rw s at x.gone in
          rw (gone, here) (written c m.device b k λ q. v.clean b c here q)
      | inr k ↦
          let n : (c.modified && (c.block_id == b)) ≡ false = ground arith in
          let d : B.read_block (sync B c m.device).1 b ≡ B.read_block m.device b =
            device-sync c m.device b ∙ (rw n refl) in
          let q : find_cached m.queue b ≡ find_cached rest b = x.kept b ∙ (rw k refl) in
          rw (d, q) refl
    ];
  }

  pushed :
      (m : BlockCacheManager B) (b j : ℕ)
      → find_cached m.queue b ≡ none
      → find_cached (m.queue ++ (with_handle (new B b m.device) ∷ [])) j
        ≡ (if b == j then some (with_handle (new B b m.device)) else find_cached m.queue j)
  pushed m b j free = find_cached-append m.queue (with_handle (new B b m.device)) j free

  -- `block_cache` of a block that is not cached.
  pub push-Keeps :
      (m : BlockCacheManager B) (b : ℕ)
      → IsValid B m
      → find_cached m.queue b ≡ none
      → length m.queue < block_cache_size
      → Keeps B m (record m { queue = m.queue ++ (with_handle (new B b m.device) ∷ []) })
  unfolding contents
  push-Keeps m b v free room = record {
    valid = record {
      distinct = Distinct-append m.queue (with_handle (new B b m.device)) v.distinct free;
      bounded = omega (arith, room, length-append m.queue (with_handle (new B b m.device) ∷ []));
      clean = λ j c f g. elim (Bool-cases (b == j)) [
        | inl k ↦
            let at_end : some (with_handle (new B b m.device)) ≡ some c =
              sym (pushed m b j free ∙ (rw k refl)) ∙ f in
            let e : with_handle (new B b m.device) ≡ c = cc at_end in
            let s : b ≡ j = ==_eq b j k in rw (sym e, s) refl
        | inr k ↦ v.clean j c (sym (pushed m b j free ∙ (rw k refl)) ∙ f) g
      ];
    };
    same = λ j. elim (Bool-cases (b == j)) [
      | inl k ↦
          let s : b ≡ j = ==_eq b j k in
          let gone : find_cached m.queue j ≡ none = rw s at free in
          rw (pushed m b j free, k, gone, s) refl
      | inr k ↦ rw (pushed m b j free, k) refl
    ];
  }

  -- A change of one cached block through a handle.
  pub update-IsValid :
      (m : BlockCacheManager B) (b : ℕ) (g : BlockCache → BlockCache) (c : BlockCache)
      → IsValid B m
      → find_cached m.queue b ≡ some c
      → (g c).block_id ≡ b
      → ((g c).modified ≡ false → (c.modified ≡ false) × ((g c).cache ≡ c.cache))
      → IsValid B (record m { queue = update_cached m.queue b g })
  update-IsValid m b g c v h k q = record {
    distinct =
        Distinct-update_cached m.queue b g (λ c' h'. let e : c ≡ c' = cc (h, h') in rw (sym e) k)
          v.distinct;
    bounded = omega (arith, v.bounded, length-update_cached m.queue b g);
    clean = λ j x f n. elim (Bool-cases (b == j)) [
      | inl e ↦
          let s : b ≡ j = ==_eq b j e in
          let same : g c ≡ x =
            some-injective (g c) x
              (sym (find_updated m.queue b g c j v.distinct h k ∙ (rw e refl)) ∙ f) in
          let (cl, ca) = q (subst (λ (y : BlockCache). y.modified ≡ false) (sym same) n) in
          subst (λ i. B.read_block m.device i ≡ x.cache) s
            (v.clean b c h cl ∙ sym ca ∙ ap (λ (y : BlockCache). y.cache) same)
      | inr e ↦ v.clean j x (sym (find_updated m.queue b g c j v.distinct h k ∙ (rw e refl)) ∙ f) n
    ];
  }

  pub update-contents :
      (m : BlockCacheManager B) (b : ℕ) (g : BlockCache → BlockCache) (c : BlockCache) (j : ℕ)
      → IsValid B m
      → find_cached m.queue b ≡ some c
      → (g c).block_id ≡ b
      → contents B (record m { queue = update_cached m.queue b g }) j
        ≡ (if b == j then (g c).cache else contents B m j)
  unfolding contents
  update-contents m b g c j v h k =
      let f = find_updated m.queue b g c j v.distinct h k in
      elim (Bool-cases (b == j)) [ inl e ↦ rw (f, e) refl | inr e ↦ rw (f, e) refl ]
