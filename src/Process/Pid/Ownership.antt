-- ===== src/Process/Pid/Ownership.antt =====
-- Every pid below the counter is either live or recycled, once.
use nimloth_os.Prelude.{
  ℕ, ◌+◌, ◌-◌, ◌%◌, ◌^◌, ◌<◌, ◌≡◌, List, [], ◌∷◌, arith, ltb, if◌then◌else◌, count, erase,
  count-erase, count_zero-contains, count_pos-contains, done, panic,
}
use nimloth_os.Process.Pid.{PidAllocator, new, alloc, dealloc}

pub record IsValid (live : List ℕ) (a : PidAllocator) : Type 0 where
  pub once : (x : ℕ) → count x live + count x a.recycled ≡ (if ltb x a.current then 1 else 0)

pub new-IsValid : IsValid [] new
unfolding count
new-IsValid = record { once = λ x. ground arith }

-- A pid that nobody holds is granted, and the state is valid with it live.
pub record Granted (live : List ℕ) (out : ℕ × PidAllocator) : Type 0 where
  pub free : count out.0 live ≡ 0
  pub valid : IsValid (out.0 ∷ live) out.1

by_list :
    (live : List ℕ) (c : ℕ) (rec : List ℕ)
    → let a : PidAllocator = record { current = c; recycled = rec } in
      IsValid live a → c + 1 < 2 ^ 64 → Granted live (alloc a)
unfolding alloc count
by_list live c [] v h =
    let same : ((c + 1) % 2 ^ 64 + (2 ^ 64 - 1)) % 2 ^ 64 ≡ c = omega arith in
    let next : (c + 1) % 2 ^ 64 ≡ c + 1 = omega arith in
    rw (same, next)
      (record {
        free = ground (arith, v.once c);
        valid = record { once = λ y. ground (arith, v.once y) };
      })
by_list live c (x ∷ rest) v h = record {
  free = ground (arith, v.once x);
  valid = record { once = λ y. ground (arith, v.once y) };
}

-- While the counter has not reached the last `usize`, `alloc` returns a pid that no live process has,
-- and every pid below the new counter is again live or recycled, exactly once.
pub alloc-Granted :
    (live : List ℕ) (a : PidAllocator)
    → IsValid live a
    → a.current + 1 < 2 ^ 64
    → Granted live (alloc a)
alloc-Granted live a v h = by_list live a.current a.recycled v h

-- The pid of a live process is taken back without a panic, and the state stays valid with one holder
-- fewer; a pid that no live process has is refused by one of the two assertions.
pub dealloc-erase :
    (live : List ℕ) (a : PidAllocator) (pid : ℕ)
    → IsValid live a
    → (0 < count pid live
        → (a' : PidAllocator) × (dealloc a pid ≡ done a') × IsValid (erase pid live) a')
      × (count pid live ≡ 0 → dealloc a pid ≡ panic)
unfolding dealloc
dealloc-erase live a pid v = (
  λ held. (
    record a { recycled = pid ∷ a.recycled },
    ground (arith, v.once pid, count_zero-contains a.recycled pid),
    record { once = λ y. unfold count in ground (arith, v.once y, count-erase y pid live held) },
  ),
  λ free. ground (arith, v.once pid, count_pos-contains a.recycled pid),
)
