-- ===== src/Tests/Memory.antt =====
-- Addresses and frames.
use nimloth_os.Prelude.{◌+◌, ◌*◌, ◌^◌, ◌<◌, ◌≤◌, ◌≡◌, refl, some, [], ◌∷◌, arith, count, done}
use nimloth_os.Mm.Address.{indexes}
use nimloth_os.Mm.FrameAllocator.{StackFrameAllocator, init, alloc, dealloc}
use nimloth_os.Mm.FrameAllocator.Ownership.{IsValid}
use nimloth_os.Mm.FrameAllocator.Foreign.{dealloc_below-alloc}
use nimloth_os.Mm.FrameAllocator.Schedules.{Memory, here, next, take, no_frame_shared}

indexes_test : indexes (2 ^ 18 + 2 * 2 ^ 9 + 3) ≡ 1 ∷ 2 ∷ 3 ∷ []
unfolding indexes
indexes_test = refl

-- Frames 10 and 11 of the range from 10 to 13 are live, and 12 is not yet handed out.
abbrev two_live : StackFrameAllocator
two_live = record { current = 12; end = 13; recycled = [] }

two_live-IsValid : IsValid 10 (10 ∷ 11 ∷ []) two_live
unfolding count
two_live-IsValid = record {
  started = omega arith;
  within = omega arith;
  width = omega arith;
  once = λ x. ground arith;
}

dealloc_below-alloc_example :
    (a' : StackFrameAllocator) × (dealloc two_live 3 ≡ done a') × ((alloc a').0 ≡ some 3)
dealloc_below-alloc_example =
    dealloc_below-alloc 10 (10 ∷ 11 ∷ []) two_live 3 two_live-IsValid (omega arith)

abbrev one_taken : Memory
one_taken = record { live = 10 ∷ []; frames = record { current = 11; end = 13; recycled = [] } }

no_frame_shared_example :
    (count 10 one_taken.live ≤ 1)
    × (0 < count 10 one_taken.live
        → (10 ≤ 10)
          × (10 < 13)
          × ((a' : StackFrameAllocator) × (dealloc one_taken.frames 10 ≡ done a')))
no_frame_shared_example =
    no_frame_shared 10 13 {m = one_taken} 10 (omega arith) (omega arith)
      (next here (take {x = 10} {a' = one_taken.frames} (unfold init alloc in refl)))
