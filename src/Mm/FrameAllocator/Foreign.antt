-- ===== src/Mm/FrameAllocator/Foreign.antt =====
-- Frames that the allocator does not manage.
use nimloth_os.Prelude.{ℕ, ◌<◌, ◌≡◌, some, arith, count_zero-contains, List, ◌∷◌, done}
use nimloth_os.Mm.FrameAllocator.{StackFrameAllocator, alloc, dealloc}
use nimloth_os.Mm.FrameAllocator.Ownership.{IsValid}

-- `dealloc` tests only `ppn >= current`: a frame below the managed range, such as one that holds the
-- kernel's own code, is accepted as if it had been allocated, and the next `alloc` hands it out.
pub dealloc_below-alloc :
    (l : ℕ) (live : List ℕ) (a : StackFrameAllocator) (ppn : ℕ)
    → IsValid l live a
    → ppn < l
    → (a' : StackFrameAllocator) × (dealloc a ppn ≡ done a') × ((alloc a').0 ≡ some ppn)
unfolding dealloc alloc
dealloc_below-alloc l live a ppn v h = (
  record a { recycled = ppn ∷ a.recycled },
  ground (arith, v.once ppn, v.started, count_zero-contains a.recycled ppn),
  ground (arith, v.started, v.within, v.width),
)
