-- ===== src/Micro/Cache/Queue.antt =====
-- The queue as a map from numbers to cached blocks.
use nimloth_os.Prelude.{
  ℕ, suc, ◌+◌, ◌≡◌, ◌<◌, refl, ap, sym, ◌∙◌, inl, inr, Bool-cases, ==_refl, ==_eq, true, false,
  Option, none, some, List, [], ◌∷◌, ◌++◌, ◌==◌, if◌then◌else◌, length, arith, subst,
}
use nimloth_os.Micro.Cache.{BlockCache, find_cached, update_cached, evict}

pub find_cached_id :
    (queue : List BlockCache) (b : ℕ) (c : BlockCache)
    → find_cached queue b ≡ some c
    → c.block_id ≡ b
unfolding find_cached
find_cached_id [] b c h = cc h
find_cached_id (d ∷ queue) b c h = elim (Bool-cases (d.block_id == b)) [
  | inl e ↦
      let s : some d ≡ some c = rw e at h in
      let same : d ≡ c = cc s in rw (sym same) (==_eq d.block_id b e)
  | inr e ↦ find_cached_id queue b c (rw e at h)
]

-- No number stands twice in the queue.
abbrev pub Distinct : List BlockCache → Type 0
Distinct [] = Unit
Distinct (c ∷ queue) = (find_cached queue c.block_id ≡ none) × Distinct queue

pub update_some : (BlockCache → BlockCache) → Option BlockCache → Option BlockCache
update_some g none = none
update_some g (some c) = some (g c)

pub find_cached-update_cached :
    (queue : List BlockCache) (b : ℕ) (g : BlockCache → BlockCache) (j : ℕ)
    → ((c : BlockCache) → find_cached queue b ≡ some c → (g c).block_id ≡ b)
    → Distinct queue
    → find_cached (update_cached queue b g) j
      ≡ (if b == j then update_some g (find_cached queue j) else find_cached queue j)
unfolding find_cached update_cached update_some
find_cached-update_cached [] b g j keep d = ground arith
find_cached-update_cached (c ∷ queue) b g j keep d = elim (Bool-cases (c.block_id == b)) [
  | inl e ↦
      let cb : c.block_id ≡ b = ==_eq c.block_id b e in
      let gb : (g c).block_id ≡ b = keep c (rw e refl) in
      let free : find_cached queue b ≡ none = rw cb at d.0 in
      let ih = find_cached-update_cached queue b g j (λ c' h. cc (free, h)) d.1 in
      rw e (elim (Bool-cases (b == j)) [
        | inl k ↦
            let k1 : ((g c).block_id == j) ≡ true = ground arith in
            let k2 : (c.block_id == j) ≡ true = ground arith in rw (k, k1, k2) refl
        | inr k ↦
            let k1 : ((g c).block_id == j) ≡ false = ground arith in
            let k2 : (c.block_id == j) ≡ false = ground arith in rw (k, k1, k2) (rw k at ih)
      ])
  | inr e ↦
      let ih = find_cached-update_cached queue b g j (λ c' h. keep c' (rw e h)) d.1 in
      rw e (elim (Bool-cases (c.block_id == j)) [
        | inl k ↦ let n : (b == j) ≡ false = ground arith in rw (k, n) refl
        | inr k ↦ rw k ih
      ])
]

pub find_cached-append :
    (queue : List BlockCache) (c : BlockCache) (j : ℕ)
    → find_cached queue c.block_id ≡ none
    → find_cached (queue ++ (c ∷ [])) j ≡ (if c.block_id == j then some c else find_cached queue j)
unfolding find_cached
find_cached-append [] c j h = refl
find_cached-append (d ∷ queue) c j h = elim (Bool-cases (d.block_id == c.block_id)) [
  | inl e ↦ cc (rw e at h)
  | inr e ↦
      let ih = find_cached-append queue c j (rw e at h) in
      elim (Bool-cases (d.block_id == j)) [
        | inl k ↦ let n : (c.block_id == j) ≡ false = ground arith in rw (k, n) refl
        | inr k ↦ rw k ih
      ]
]

-- What `evict` takes out.
pub record Evicted (queue : List BlockCache) (c : BlockCache) (rest : List BlockCache)
    : Type 0 where
  pub gone : find_cached rest c.block_id ≡ none
  pub kept :
      (j : ℕ) → find_cached queue j ≡ (if c.block_id == j then some c else find_cached rest j)
  pub distinct : Distinct rest
  pub shorter : length rest + 1 ≡ length queue
  pub unheld : c.handles ≡ 0

pub data Evict (queue : List BlockCache) : Option (BlockCache × List BlockCache) → Type 0 where
  evicted :
      {c : BlockCache} {rest : List BlockCache}
      → Evicted queue c rest
      → Evict queue (some (c, rest))
  all_held :
      ((j : ℕ) (c : BlockCache) → find_cached queue j ≡ some c → 0 < c.handles) → Evict queue none

pub evict-Evict : (queue : List BlockCache) → Distinct queue → Evict queue (evict queue)
unfolding evict find_cached
evict-Evict [] d = all_held λ j c h. cc h
evict-Evict (c ∷ queue) d = elim (Bool-cases (c.handles == 0)) [
  | inl e ↦ rw e (
      evicted (record {
        gone = d.0;
        kept = λ j. refl;
        distinct = d.1;
        shorter = omega arith;
        unheld = ==_eq c.handles 0 e;
      }))
  | inr e ↦ rw e (extend (evict-Evict queue d.1) (ground arith))
]
  where
    held_cons :
        ((j : ℕ) (x : BlockCache) → find_cached queue j ≡ some x → 0 < x.handles)
        → 0 < c.handles
        → (j : ℕ) (x : BlockCache) → find_cached (c ∷ queue) j ≡ some x
        → 0 < x.handles
    held_cons f pos j x h = elim (Bool-cases (c.block_id == j)) [
      | inl k ↦ let s : some c ≡ some x = rw k at h in let same : c ≡ x = cc s in rw (sym same) pos
      | inr k ↦ f j x (rw k at h)
    ]

    apart :
        {c' : BlockCache} {rest : List BlockCache}
        → Evicted queue c' rest
        → (c.block_id == c'.block_id) ≡ false
    apart {c'} {rest} x = elim (Bool-cases (c.block_id == c'.block_id)) [
      | inr k ↦ k
      | inl k ↦
          let e : c.block_id ≡ c'.block_id = ground arith in
          let a : find_cached queue c'.block_id ≡ some c' =
            x.kept c'.block_id ∙ (rw (==_refl c'.block_id) refl) in
          cc (a, rw e at d.0)
    ]

    kept_cons :
        (j : ℕ) {c' : BlockCache} {rest : List BlockCache}
        → Evicted queue c' rest
        → find_cached (c ∷ queue) j
          ≡ (if c'.block_id == j then some c' else find_cached (c ∷ rest) j)
    kept_cons j {c'} {rest} x = elim (Bool-cases (c.block_id == j)) [
      | inl k ↦ let n : (c'.block_id == j) ≡ false = ground (arith, apart x) in rw (k, n) refl
      | inr k ↦ rw k (x.kept j)
    ]

    rest_free :
        {c' : BlockCache} {rest : List BlockCache}
        → Evicted queue c' rest
        → find_cached rest c.block_id ≡ none
    rest_free {c'} {rest} x =
        let n : (c'.block_id == c.block_id) ≡ false = ground (arith, apart x) in
        sym (x.kept c.block_id ∙ (rw n refl)) ∙ d.0

    extend :
        {r : Option (BlockCache × List BlockCache)}
        → Evict queue r
        → 0 < c.handles
        → Evict
            (c ∷ queue)
            (elim r [ none ↦ none | some (found, others) ↦ some (found, c ∷ others) ])
    extend (all_held f) pos = all_held (held_cons f pos)
    extend (evicted {c = c'} {rest = rest} x) pos = evicted (record {
      gone = let n : (c.block_id == c'.block_id) ≡ false = apart x in rw n x.gone;
      kept = λ j. kept_cons j x;
      distinct = (rest_free x, x.distinct);
      shorter = omega (arith, x.shorter);
      unheld = x.unheld;
    })

pub Distinct-append :
    (queue : List BlockCache) (c : BlockCache)
    → Distinct queue
    → find_cached queue c.block_id ≡ none
    → Distinct (queue ++ (c ∷ []))
unfolding find_cached
Distinct-append [] c d h = (refl, tt)
Distinct-append (x ∷ queue) c d h = elim (Bool-cases (x.block_id == c.block_id)) [
  | inl e ↦ cc (rw e at h)
  | inr e ↦
      let n : (c.block_id == x.block_id) ≡ false = ground arith in
      let free : find_cached queue c.block_id ≡ none = rw e at h in
      (find_cached-append queue c x.block_id free ∙ (rw n d.0), Distinct-append queue c d.1 free)
]

-- A change that keeps the number of the block that it changes.
abbrev pub KeepsId : List BlockCache → ℕ → (BlockCache → BlockCache) → Type 0
KeepsId queue b g = (c : BlockCache) → find_cached queue b ≡ some c → (g c).block_id ≡ b

update_some-none : (g : BlockCache → BlockCache) → update_some g none ≡ none
unfolding update_some
update_some-none g = refl

pub Distinct-update_cached :
    (queue : List BlockCache) (b : ℕ) (g : BlockCache → BlockCache)
    → KeepsId queue b g
    → Distinct queue
    → Distinct (update_cached queue b g)
unfolding find_cached update_cached
Distinct-update_cached [] b g keep d = tt
Distinct-update_cached (c ∷ queue) b g keep d = elim (Bool-cases (c.block_id == b)) [
  | inl e ↦
      let gb : (g c).block_id ≡ b = keep c (rw e refl) in
      let cb : c.block_id ≡ b = ==_eq c.block_id b e in
      let free : find_cached queue b ≡ none = rw cb at d.0 in
      let keep' : KeepsId queue b g = λ c' h. cc (free, h) in
      let f : find_cached (update_cached queue b g) b ≡ none =
        find_cached-update_cached queue b g b keep' d.1
        ∙ (rw (==_refl b, free) (update_some-none g)) in
      rw e (
        subst (λ n. find_cached (update_cached queue b g) n ≡ none) (sym gb) f,
        Distinct-update_cached queue b g keep' d.1,
      )
  | inr e ↦
      let keep' : KeepsId queue b g = λ c' h. keep c' (rw e h) in
      let n : (b == c.block_id) ≡ false = ground arith in
      rw e (
        find_cached-update_cached queue b g c.block_id keep' d.1 ∙ (rw n d.0),
        Distinct-update_cached queue b g keep' d.1,
      )
]

pub length-update_cached :
    (queue : List BlockCache) (b : ℕ) (g : BlockCache → BlockCache)
    → length (update_cached queue b g) ≡ length queue
unfolding update_cached
length-update_cached [] b g = refl
length-update_cached (c ∷ queue) b g = ap suc (length-update_cached queue b g)

-- What the changed queue finds.
pub find_updated :
    (queue : List BlockCache) (b : ℕ) (g : BlockCache → BlockCache) (c : BlockCache) (j : ℕ)
    → Distinct queue
    → find_cached queue b ≡ some c
    → (g c).block_id ≡ b
    → find_cached (update_cached queue b g) j ≡ (if b == j then some (g c) else find_cached queue j)
unfolding update_some
find_updated queue b g c j d h k =
    let keep : KeepsId queue b g = λ c' h'. let e : c ≡ c' = cc (h, h') in rw (sym e) k in
    find_cached-update_cached queue b g j keep d ∙ (elim (Bool-cases (b == j)) [
      | inl e ↦ let s : b ≡ j = ==_eq b j e in rw (e, sym s, h) refl
      | inr e ↦ rw e refl
    ])

pub update_absent :
    (queue : List BlockCache) (b : ℕ) (g : BlockCache → BlockCache)
    → find_cached queue b ≡ none
    → update_cached queue b g ≡ queue
unfolding find_cached update_cached
update_absent [] b g h = refl
update_absent (c ∷ queue) b g h = elim (Bool-cases (c.block_id == b)) [
  | inl e ↦ cc (rw e at h)
  | inr e ↦ rw e (ap (λ q. c ∷ q) (update_absent queue b g (rw e at h)))
]
