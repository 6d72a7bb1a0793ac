-- ===== src/Mm/MemorySet/Areas.antt =====
-- `MapArea::map` of an area of frames.
use nimloth_os.Prelude.{
  ℕ, ◌+◌, ◌*◌, ◌^◌, ◌<◌, ◌≤◌, ◌≡◌, ◌⊎◌, refl, ap, sym, ◌∙◌, true, false, some, List, [], arith,
  count, done,
}
use nimloth_os.Mm.Pte
use nimloth_os.Mm.Pte.{is_valid, with_v}
use nimloth_os.Mm.Pte.Fields.{entry_fields}
use nimloth_os.Mm.PageTable.{PageTable, translate}
use nimloth_os.Mm.PageTable.Tree.{Role, IsTree, room}
use nimloth_os.Mm.PageTable.Mapping.{entry}
use nimloth_os.Mm.MemorySet.{MapArea, framed, map_area, pages}
use nimloth_os.Mm.MemorySet.Granting.{frame_for}
use nimloth_os.Mm.MemorySet.Mapped.{map_pages-Mapped, entry-translate}

-- A new area of frames that fits into the space: its pages are unmapped, and there are three frames
-- for each of them, one for the page and at most two for tables.
pub record FitsIn (l : ℕ) (live : List ℕ) (role : ℕ → Role) (area : MapArea) (t : PageTable)
    : Type 0 where
  pub tree : IsTree l live role t
  pub is_framed : area.map_type ≡ framed
  pub empty : area.data_frames ≡ []
  pub ordered : area.vpn_range.l ≤ area.vpn_range.r
  pub within : area.vpn_range.r ≤ 2 ^ 27
  pub perm : area.map_perm < 2 ^ 8
  pub room : 3 * pages area.vpn_range ≤ room t.allocator
  pub unmapped :
      (w : ℕ) → area.vpn_range.l ≤ w → w < area.vpn_range.r → is_valid (entry t w) ≡ false

-- `map` of a new area of frames whose pages are unmapped does not panic, where the allocator has three
-- frames for each page and the page table is a tree of frames in use. Afterwards each of its pages is translated to a frame of its own
-- with the permissions of the area and V; the area tracks that frame; no frame is shared between two
-- pages or was in use before; and the entries of all other pages are what they were.
pub map_area_lem :
    (l : ℕ) (live : List ℕ) (role : ℕ → Role) (area : MapArea) (t : PageTable)
    → FitsIn l live role area t
    → (area' : MapArea) × (t' : PageTable) × (frame : ℕ → ℕ) × (map_area area t ≡ done (area', t'))
      × ((j : ℕ)
          → j < pages area.vpn_range
          → (translate t' (area.vpn_range.l + j) ≡ some (Pte.new (frame j) (with_v area.map_perm)))
            × (frame_for area'.data_frames (area.vpn_range.l + j) ≡ some (frame j))
            × (count (frame j) live ≡ 0)
            × (frame j < 2 ^ 44))
      × ((i j : ℕ)
          → i < pages area.vpn_range
          → j < pages area.vpn_range
          → frame i ≡ frame j
          → i ≡ j)
      × ((w : ℕ)
          → w < 2 ^ 27
          → (w < area.vpn_range.l) ⊎ (area.vpn_range.r ≤ w)
          → entry t' w ≡ entry t w)
unfolding map_area
map_area_lem l live role area t f =
    let start = area.vpn_range.l in
    let k = pages area.vpn_range in
    let whole : start + k ≡ area.vpn_range.r = omega (arith, f.ordered) in
    let m =
      map_pages-Mapped k l live role area t start f.tree f.is_framed
        (omega (arith, whole, f.within)) f.room
        (λ w lo hi. f.unmapped w lo (omega (arith, hi, whole))) (λ w lo hi. rw f.empty refl) in
    (
      m.area',
      m.table,
      m.frame,
      m.result,
      λ j h.
          let e = m.written j h in
          let v : is_valid (entry m.table (start + j)) ≡ true =
            rw e (valid_entry (m.frame j) (m.narrow j h) f.perm) in
          (
            entry-translate l m.live' m.role' m.table m.tree (start + j) v ∙ ap some e,
            m.tracked j h,
            m.fresh j h,
            m.narrow j h,
          ),
      m.distinct,
      λ w h o. m.others w h (rw (sym whole) at o),
    )
  where
    valid_entry :
        (ppn : ℕ)
        → ppn < 2 ^ 44
        → area.map_perm < 2 ^ 8
        → is_valid (Pte.new ppn (with_v area.map_perm)) ≡ true
    valid_entry ppn h p = (entry_fields ppn area.map_perm h p).7
