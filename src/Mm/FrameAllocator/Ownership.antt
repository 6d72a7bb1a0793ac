-- ===== src/Mm/FrameAllocator/Ownership.antt =====
-- Who holds each frame: every frame that was ever handed out is either live or recycled, once.
use nimloth_os.Prelude.{
  ℕ, ◌+◌, ◌-◌, ◌%◌, ◌^◌, ◌≤◌, ◌<◌, ◌≡◌, refl, inl, inr, Bool-cases, ==_eq, ◌&&◌, Option, none, some,
  List, [], ◌∷◌, arith, ◌==◌, leb, ltb, if◌then◌else◌, count, erase, count-erase, contains-count,
  contains-false-count, done, panic,
}
use nimloth_os.Mm.FrameAllocator.{StackFrameAllocator, new, init, alloc, dealloc}

-- `l` is the first managed frame and `live` the frames that clients hold.
pub record IsValid (l : ℕ) (live : List ℕ) (a : StackFrameAllocator) : Type 0 where
  pub started : l ≤ a.current
  pub within : a.current ≤ a.end
  pub width : a.end ≤ 2 ^ 44
  pub once :
      (x : ℕ) → count x live + count x a.recycled ≡ (if leb l x && ltb x a.current then 1 else 0)

pub init-IsValid : (l r : ℕ) → l ≤ r → r ≤ 2 ^ 44 → IsValid l [] (init new l r)
unfolding init count
init-IsValid l r h w = record {
  started = omega arith;
  within = h;
  width = w;
  once = λ x. ground arith;
}

-- What `alloc` may do to the frames that clients hold.
pub data Alloc (l : ℕ) (live : List ℕ) (a : StackFrameAllocator)
    : Option ℕ × StackFrameAllocator → Type 0 where
  granted :
      {x : ℕ} {a' : StackFrameAllocator}
      → l ≤ x
      → x < a.end
      → count x live ≡ 0
      → a'.end ≡ a.end
      → IsValid l (x ∷ live) a'
      → Alloc l live a (some x, a')
  exhausted : ((x : ℕ) → l ≤ x → x < a.end → count x live ≡ 1) → Alloc l live a (none, a)

-- A frame in the recycled list lies in the managed range and is held by nobody.
recycled-range :
    {l : ℕ} {live : List ℕ} {a : StackFrameAllocator} (x : ℕ)
    → IsValid l live a
    → 0 < count x a.recycled
    → (l ≤ x) × (x < a.current) × (count x live ≡ 0) × (count x a.recycled ≡ 1)
recycled-range x v h = ground (arith, v.once x)

alloc-recycled :
    (l : ℕ) (live : List ℕ) (c e x : ℕ) (rest : List ℕ)
    → let a : StackFrameAllocator = record { current = c; end = e; recycled = x ∷ rest } in
      IsValid l live a → Alloc l live a (alloc a)
unfolding alloc
alloc-recycled l live c e x rest v =
    let (lo, hi, free, here) = recycled-range x v (unfold count in ground arith) in
    let same : x % 2 ^ 44 ≡ x = omega (arith, v.within, v.width) in
    rw same (
      granted {a' = record { current = c; end = e; recycled = rest }} lo (omega (arith, v.within))
        free refl
        (record {
          started = v.started;
          within = v.within;
          width = v.width;
          once = λ y. unfold count in ground (arith, v.once y);
        }))

alloc-fresh :
    (l : ℕ) (live : List ℕ) (c e : ℕ)
    → let a : StackFrameAllocator = record { current = c; end = e; recycled = [] } in
      IsValid l live a → Alloc l live a (alloc a)
unfolding alloc count
alloc-fresh l live c e v = elim (Bool-cases (c == e)) [
  | inl full ↦ rw full (exhausted λ x p q. ground (arith, v.once x, ==_eq c e full))
  | inr room ↦
      let lt : c < e = ground (arith, v.within) in
      let same : ((c + 1) % 2 ^ 64 + (2 ^ 64 - 1)) % 2 ^ 64 % 2 ^ 44 ≡ c = omega (arith, v.width) in
      let next : (c + 1) % 2 ^ 64 ≡ c + 1 = omega (arith, v.width) in
      rw (room, same, next)
        (granted {a' = record { current = c + 1; end = e; recycled = [] }} v.started lt
          (ground (arith, v.once c)) refl
          (record {
            started = omega (arith, v.started);
            within = omega (arith, lt);
            width = v.width;
            once = λ y. ground (arith, v.once y, v.started);
          }))
]

-- In a valid state `alloc` either grants a managed frame that nobody holds, after which the state is
-- valid with that frame live, or answers `None` and changes nothing, and then every managed frame is
-- held by a client.
pub alloc_lem :
    (l : ℕ) (live : List ℕ) (a : StackFrameAllocator) → IsValid l live a → Alloc l live a (alloc a)
alloc_lem l live a v = by_list a.recycled v
  where
    by_list :
        (rec : List ℕ)
        → let b : StackFrameAllocator = record a { recycled = rec } in
          IsValid l live b → Alloc l live b (alloc b)
    by_list [] v = alloc-fresh l live a.current a.end v
    by_list (x ∷ rest) v = alloc-recycled l live a.current a.end x rest v

-- A frame that a client holds is taken back without a panic, and the state stays valid with one
-- holder fewer; giving back a frame that is recycled already, or was never handed out, panics.
pub dealloc_lem :
    (l : ℕ) (live : List ℕ) (a : StackFrameAllocator) (ppn : ℕ)
    → IsValid l live a
    → (0 < count ppn live
        → (a' : StackFrameAllocator) × (dealloc a ppn ≡ done a') × IsValid l (erase ppn live) a')
      × (l ≤ ppn → count ppn live ≡ 0 → dealloc a ppn ≡ panic)
unfolding dealloc
dealloc_lem l live a ppn v = (
  λ held. (
    record a { recycled = ppn ∷ a.recycled },
    ground (arith, v.once ppn, contains-count a.recycled ppn),
    record {
      started = v.started;
      within = v.within;
      width = v.width;
      once = λ y. unfold count in ground (arith, v.once y, count-erase y ppn live held);
    },
  ),
  λ lo free. ground (arith, v.once ppn, contains-false-count a.recycled ppn),
)
