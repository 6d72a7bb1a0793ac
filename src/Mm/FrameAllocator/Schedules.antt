-- ===== src/Mm/FrameAllocator/Schedules.antt =====
-- Any interleaving of the clients' calls: frames are taken, refused and given back in any order.
use nimloth_os.Prelude.{
  refl, sym, ◌∙◌, ℕ, ◌^◌, ◌≤◌, ◌<◌, ◌≡◌, Option, none, some, List, [], ◌∷◌, arith, count, erase,
  done,
}
use nimloth_os.Mm.FrameAllocator.{StackFrameAllocator, new, init, alloc, dealloc}
use nimloth_os.Mm.FrameAllocator.Ownership.{
  IsValid, Alloc, granted, exhausted, alloc_lem, dealloc_lem, init-IsValid,
}

-- The frames that clients hold, as their `FrameTracker`s, and the allocator.
pub record Memory : Type 0 where
  pub live : List ℕ
  pub frames : StackFrameAllocator

-- A client gets a frame, is refused one, or drops a tracker that it holds.
pub data Step (m : Memory) : Memory → Type 0 where
  take :
      {x : ℕ} {a' : StackFrameAllocator}
      → alloc m.frames ≡ (some x, a')
      → Step m (record { live = x ∷ m.live; frames = a' })
  refuse :
      {a' : StackFrameAllocator}
      → alloc m.frames ≡ (none, a')
      → Step m (record { live = m.live; frames = a' })
  drop :
      {a' : StackFrameAllocator} (x : ℕ)
      → 0 < count x m.live
      → dealloc m.frames x ≡ done a'
      → Step m (record { live = erase x m.live; frames = a' })

pub data Reach (m : Memory) : Memory → Type 0 where
  here : Reach m m
  next : {n o : Memory} → Reach m n → Step n o → Reach m o

-- What an answer of `alloc` says, read off its outcome.
abbrev AfterAlloc : ℕ → List ℕ → Option ℕ × StackFrameAllocator → Type 0
AfterAlloc l live (none, a') = IsValid l live a'
AfterAlloc l live (some x, a') = IsValid l (x ∷ live) a'

after :
    {l : ℕ} {live : List ℕ} {a : StackFrameAllocator} {r : Option ℕ × StackFrameAllocator}
    → IsValid l live a
    → Alloc l live a r
    → AfterAlloc l live r
after v (granted _ _ _ _ v') = v'
after v (exhausted _) = v

after_alloc :
    {l : ℕ} {live : List ℕ} {a : StackFrameAllocator} {r : Option ℕ × StackFrameAllocator}
    → IsValid l live a
    → alloc a ≡ r
    → AfterAlloc l live r
after_alloc {l} {live} {a} v e = rw e at (after v (alloc_lem l live a v))

done-injective : {a b : StackFrameAllocator} → done a ≡ done b → a ≡ b
done-injective h = cc

Step-IsValid :
    {l : ℕ} {m n : Memory} → Step m n → IsValid l m.live m.frames → IsValid l n.live n.frames
Step-IsValid (take e) v = after_alloc v e
Step-IsValid (refuse e) v = after_alloc v e
Step-IsValid {l} {m} (drop x held e) v =
    let (a', ok, v') = (dealloc_lem l m.live m.frames x v).0 held in
    rw (done-injective (sym ok ∙ e)) at v'

Reach-IsValid :
    {l : ℕ} {m n : Memory} → Reach m n → IsValid l m.live m.frames → IsValid l n.live n.frames
Reach-IsValid here v = v
Reach-IsValid (next r s) v = Step-IsValid s (Reach-IsValid r v)

end-alloc : (a : StackFrameAllocator) → (alloc a).1.end ≡ a.end
unfolding alloc
end-alloc a = ground arith

end-dealloc :
    (a : StackFrameAllocator) {a' : StackFrameAllocator} (x : ℕ)
    → dealloc a x ≡ done a'
    → a'.end ≡ a.end
unfolding dealloc
end-dealloc a x e = ground arith

Reach-end : {m n : Memory} → Reach m n → n.frames.end ≡ m.frames.end
Reach-end here = refl
Reach-end (next {n} r (take e)) = cc (Reach-end r, end-alloc n.frames, e)
Reach-end (next {n} r (refuse e)) = cc (Reach-end r, end-alloc n.frames, e)
Reach-end (next {n} r (drop x _ e)) = end-dealloc n.frames x e ∙ Reach-end r

abbrev pub boot : ℕ → ℕ → Memory
boot l r = record { live = []; frames = init new l r }

-- Started on the frames from l to r, and whatever the clients do in whatever order, no frame is held
-- twice, every held frame lies in the range from l to the end of the range, and giving back any held
-- frame does not panic.
pub no_frame_shared :
    (l r : ℕ) {m : Memory} (x : ℕ)
    → l ≤ r
    → r ≤ 2 ^ 44
    → Reach (boot l r) m
    → (count x m.live ≤ 1)
      × (0 < count x m.live
          → (l ≤ x) × (x < r) × ((a' : StackFrameAllocator) × (dealloc m.frames x ≡ done a')))
unfolding init
no_frame_shared l r {m} x h w reach =
    let v = Reach-IsValid reach (init-IsValid l r h w) in
    (
      ground (arith, v.once x),
      λ held. (
        ground (arith, v.once x),
        ground (arith, v.once x, v.within, Reach-end reach),
        let (a', ok, _) = (dealloc_lem l m.live m.frames x v).0 held in (a', ok),
      ),
    )
