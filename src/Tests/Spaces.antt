-- ===== src/Tests/Spaces.antt =====
-- Address spaces.
use nimloth_os.Prelude.{
  ℕ, ◌+◌, ◌^◌, ◌<◌, ◌≤◌, ◌≡◌, ◌⊎◌, refl, inl, inr, Bool-cases, ==_eq, some, List, [], ◌∷◌, arith,
  ◌==◌, if◌then◌else◌, done, count,
}
use nimloth_os.Mm.Address.{indexes}
use nimloth_os.Mm.FrameAllocator.{StackFrameAllocator}
use nimloth_os.Mm.FrameAllocator
use nimloth_os.Mm.FrameAllocator.Ownership
use nimloth_os.Mm.Pte
use nimloth_os.Mm.Pte.{is_valid, with_v, ppn_of}
use nimloth_os.Mm.PageTable.{PageTable, Frames, zeroed, put, translate}
use nimloth_os.Mm.PageTable.Mapping.{entry}
use nimloth_os.Mm.PageTable.Tree.{leaf}
use nimloth_os.Mm.MemorySet.{MapArea, MemorySet, framed, map_area, recycle_data_pages}
use nimloth_os.Mm.MemorySet.Granting.{frame_for}
use nimloth_os.Mm.MemorySet.Areas.{FitsIn, map_area_lem}
use nimloth_os.Mm.MemorySet.Recycle.{all_tracked, tracked, recycle_data_pages_lem}
use nimloth_os.Tests.Paging.{mapped, table_roles, mapped-IsTree}

-- Two pages behind the one that is mapped.
abbrev two_pages : MapArea
two_pages = record {
  vpn_range = record { l = 7; r = 9 };
  data_frames = [];
  map_type = framed;
  map_perm = 22;
}

two_pages-FitsIn : FitsIn 10 (10 ∷ 11 ∷ 12 ∷ []) table_roles two_pages mapped
unfolding entry is_valid indexes Pte.new ppn_of leaf
two_pages-FitsIn = record {
  tree = mapped-IsTree;
  is_framed = refl;
  empty = refl;
  ordered = omega arith;
  within = omega arith;
  perm = omega arith;
  room = omega arith;
  unmapped = λ w lo hi. elim (Bool-cases (w == 7)) [
    | inl e ↦ let s : w ≡ 7 = ==_eq w 7 e in rw s refl
    | inr e ↦ let s : w ≡ 8 = ground (arith, e, lo, hi) in rw s refl
  ];
}

map_area_lem_example :
    (area' : MapArea) × (t' : PageTable) × (frame : ℕ → ℕ) × (map_area two_pages mapped
      ≡ done (area', t'))
    × ((j : ℕ)
        → j < 2
        → (translate t' (7 + j) ≡ some (Pte.new (frame j) (with_v 22)))
          × (frame_for area'.data_frames (7 + j) ≡ some (frame j))
          × (count (frame j) (10 ∷ 11 ∷ 12 ∷ []) ≡ 0)
          × (frame j < 2 ^ 44))
    × ((i j : ℕ) → i < 2 → j < 2 → frame i ≡ frame j → i ≡ j)
    × ((w : ℕ) → w < 2 ^ 27 → (w < 7) ⊎ (9 ≤ w) → entry t' w ≡ entry mapped w)
map_area_lem_example =
    map_area_lem 10 (10 ∷ 11 ∷ 12 ∷ []) table_roles two_pages mapped two_pages-FitsIn

-- One memory: frames 10 to 12 are tables of a new space without pages, and frames 13 to 15 those of an
-- old space whose pages 7 and 8 are the frames 16 and 17.
abbrev shared : Frames
shared =
    put
      (put
        (put
          (put (put (put (λ _ _. 0) 10 0 (Pte.new 11 1)) 11 0 (Pte.new 12 1)) 13 0 (Pte.new 14 1))
          14 0 (Pte.new 15 1))
        15 7 (Pte.new 16 23))
      15 8 (Pte.new 17 23)

abbrev new_space : PageTable
new_space = record {
  root_ppn = 10;
  frames = 12 ∷ 11 ∷ 10 ∷ [];
  mem = shared;
  allocator = record { current = 18; end = 40; recycled = [] };
}

abbrev old_space : PageTable
old_space = record new_space { root_ppn = 13; frames = 15 ∷ 14 ∷ 13 ∷ [] }

abbrev in_use : List ℕ
in_use = 10 ∷ 11 ∷ 12 ∷ 13 ∷ 14 ∷ 15 ∷ 16 ∷ 17 ∷ []

-- The new space with frames 18 and 19 for its pages.
abbrev grown_space : PageTable
grown_space = record new_space {
  mem = put (zeroed (put (zeroed shared 18) 12 7 (Pte.new 18 23)) 19) 12 8 (Pte.new 19 23);
  allocator = record { current = 20; end = 40; recycled = [] };
}

abbrev grown_area : MapArea
grown_area = record two_pages { data_frames = (7, 18) ∷ (8, 19) ∷ [] }

abbrev old_entry : ℕ → ℕ
old_entry j = if j == 0 then Pte.new 16 23 else Pte.new 17 23

-- An area that tracks frame 13.
abbrev one_area : MemorySet
one_area = record {
  page_table = record mapped { allocator = record { current = 14; end = 20; recycled = [] } };
  areas = record two_pages { data_frames = (7, 13) ∷ [] } ∷ [];
}

four_live-IsValid : Ownership.IsValid 10 (10 ∷ 11 ∷ 12 ∷ 13 ∷ []) one_area.page_table.allocator
unfolding count
four_live-IsValid = record {
  started = omega arith;
  within = omega arith;
  width = omega arith;
  once = λ x. ground arith;
}

tracked_frame_held :
    (x : ℕ) → count x (all_tracked one_area.areas) ≤ count x (10 ∷ 11 ∷ 12 ∷ 13 ∷ [])
unfolding count all_tracked tracked
tracked_frame_held x = ground arith

recycle_data_pages_lem_example :
    (a : StackFrameAllocator) × (live' : List ℕ) × (recycle_data_pages one_area
      ≡ done (record { page_table = record one_area.page_table { allocator = a }; areas = [] }))
    × Ownership.IsValid 10 live' a
    × ((x : ℕ)
        → count x live' + count x (all_tracked one_area.areas) ≡ count x (10 ∷ 11 ∷ 12 ∷ 13 ∷ []))
recycle_data_pages_lem_example =
    recycle_data_pages_lem 10 (10 ∷ 11 ∷ 12 ∷ 13 ∷ []) one_area four_live-IsValid tracked_frame_held
