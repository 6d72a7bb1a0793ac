-- ===== src/Mm/MemorySet/Recycle.antt =====
-- `MemorySet::recycle_data_pages`.
use nimloth_os.Prelude.{
  ℕ, ◌+◌, ◌<◌, ◌≤◌, ◌≡◌, refl, List, [], ◌∷◌, ◌++◌, arith, ◌==◌, if◌then◌else◌, count, count-erase,
  count-append, erase, Outcome, done,
}
use nimloth_os.Mm.FrameAllocator.{StackFrameAllocator}
use nimloth_os.Mm.FrameAllocator.Ownership
use nimloth_os.Mm.FrameAllocator.Ownership.{dealloc_lem}
use nimloth_os.Mm.PageTable.{PageTable}
use nimloth_os.Mm.MemorySet.{MapArea, MemorySet, drop_frames, drop_areas, recycle_data_pages}

-- The frames that an area tracks, and those of a list of areas.
unfoldable pub tracked : List (ℕ × ℕ) → List ℕ
tracked [] = []
tracked ((v, p) ∷ rest) = p ∷ tracked rest

unfoldable pub all_tracked : List MapArea → List ℕ
unfolding tracked
all_tracked [] = []
all_tracked (area ∷ areas) = tracked area.data_frames ++ all_tracked areas

-- A run that gives frames back: of the frames in use those of the list are no longer.
pub record GaveBack (l : ℕ) (live frames : List ℕ) (t : PageTable) (r : Outcome PageTable)
    : Type 0 where
  pub allocator : StackFrameAllocator
  pub result : r ≡ done (record t { allocator = allocator })
  pub live' : List ℕ
  pub valid : Ownership.IsValid l live' allocator
  pub counted : (x : ℕ) → count x live' + count x frames ≡ count x live

drop_frames-GaveBack :
    (frames : List (ℕ × ℕ)) (l : ℕ) (live : List ℕ) (t : PageTable)
    → Ownership.IsValid l live t.allocator
    → ((x : ℕ) → count x (tracked frames) ≤ count x live)
    → GaveBack l live (tracked frames) t (drop_frames frames t)
unfolding drop_frames tracked count
drop_frames-GaveBack [] l live t v h = record {
  allocator = t.allocator;
  result = refl;
  live' = live;
  valid = v;
  counted = λ x. omega arith;
}
drop_frames-GaveBack ((vpn, p) ∷ rest) l live t v h =
    let used : 0 < count p live = let x = h p in ground (arith, x) in
    let (a, r, v') = (dealloc_lem l live t.allocator p v).0 used in
    let less : (x : ℕ) → count x (erase p live) + (if p == x then 1 else 0) ≡ count x live =
      λ x. count-erase x p live used in
    let g =
      drop_frames-GaveBack rest l (erase p live) (record t { allocator = a }) v'
        (λ x. let y = h x in let z = less x in omega (arith, y, z)) in
    record {
      allocator = g.allocator;
      result = rw r g.result;
      live' = g.live';
      valid = g.valid;
      counted = λ x. let y = g.counted x in let z = less x in omega (arith, y, z);
    }

drop_areas-GaveBack :
    (areas : List MapArea) (l : ℕ) (live : List ℕ) (t : PageTable)
    → Ownership.IsValid l live t.allocator
    → ((x : ℕ) → count x (all_tracked areas) ≤ count x live)
    → GaveBack l live (all_tracked areas) t (drop_areas areas t)
unfolding drop_areas all_tracked count
drop_areas-GaveBack [] l live t v h = record {
  allocator = t.allocator;
  result = refl;
  live' = live;
  valid = v;
  counted = λ x. omega arith;
}
drop_areas-GaveBack (area ∷ areas) l live t v h =
    let ds = tracked area.data_frames in
    let split : (x : ℕ)
        → count x (ds ++ all_tracked areas) ≡ count x ds + count x (all_tracked areas) =
      λ x. count-append x ds (all_tracked areas) in
    let g =
      drop_frames-GaveBack area.data_frames l live t v
        (λ x. let y = h x in let z = split x in omega (arith, y, z)) in
    let k =
      drop_areas-GaveBack areas l g.live' (record t { allocator = g.allocator }) g.valid
        (λ x. let y = h x in let z = split x in let w = g.counted x in omega (arith, y, z, w)) in
    record {
      allocator = k.allocator;
      result = rw g.result k.result;
      live' = k.live';
      valid = k.valid;
      counted = λ x.
          let y = g.counted x in let z = split x in let w = k.counted x in omega (arith, y, z, w);
    }

-- Where every frame that the areas track is in use, `recycle_data_pages` does not panic: it gives back
-- exactly these frames, each as often as it is tracked, and leaves no area. The page table, whose
-- frames are not tracked by an area, stays as it is.
pub recycle_data_pages_lem :
    (l : ℕ) (live : List ℕ) (s : MemorySet)
    → Ownership.IsValid l live s.page_table.allocator
    → ((x : ℕ) → count x (all_tracked s.areas) ≤ count x live)
    → (a : StackFrameAllocator) × (live' : List ℕ) × (recycle_data_pages s
        ≡ done (record { page_table = record s.page_table { allocator = a }; areas = [] }))
      × Ownership.IsValid l live' a
      × ((x : ℕ) → count x live' + count x (all_tracked s.areas) ≡ count x live)
unfolding recycle_data_pages
recycle_data_pages_lem l live s v h =
    let g = drop_areas-GaveBack s.areas l live s.page_table v h in
    (g.allocator, g.live', rw g.result refl, g.valid, g.counted)
