-- ===== src/Mm/MemorySet/Mapped.antt =====
-- The pages of an area after `map`.
use nimloth_os.Prelude.{
  ℕ, zero, suc, ◌+◌, ◌*◌, ◌^◌, ◌<◌, ◌≤◌, ◌≡◌, ◌≢◌, refl, ap, sym, ◌∙◌, ◌⊎◌, inl, inr, Option-cases,
  ==_refl, true, false, none, some, List, ◌∷◌, arith, ◌==◌, count, done,
}
use nimloth_os.Mm.Address.{indexes}
use nimloth_os.Mm.Pte
use nimloth_os.Mm.Pte.{is_valid, with_v}
use nimloth_os.Mm.PageTable.{PageTable, map, translate, find_pte, write_pte}
use nimloth_os.Mm.PageTable.Tree.{Role, IsTree, room}
use nimloth_os.Mm.PageTable.Entries.{put-IsTree, walk-leaf}
use nimloth_os.Mm.PageTable.Mapping.{
  entry, find_pte_create-Ready, found-entry, write-Written, translate-found,
}
use nimloth_os.Mm.MemorySet.{MapArea, framed, map_one, map_pages}
use nimloth_os.Mm.MemorySet.Granting.{frame_for, Given, give_frame-Given}

translate-entry :
    (l : ℕ) (live : List ℕ) (role : ℕ → Role) (t : PageTable) (s : IsTree l live role t) (w v : ℕ)
    → translate t w ≡ some v
    → entry t w ≡ v
translate-entry l live role t s w v h = elim (Option-cases (find_pte t w)) [
  | inl e ↦ let n : translate t w ≡ none = unfold translate in rw (e, translate) refl in cc (n, h)
  | inr ((q, k), e) ↦
      let f = translate-found t w q k e in
      let (a, b, c) = found-entry l live role t s w q k e in
      let g : t.mem q k ≡ v = cc (f, h) in c ∙ g
]

-- A page whose entry is valid is translated to that entry.
pub entry-translate :
    (l : ℕ) (live : List ℕ) (role : ℕ → Role) (t : PageTable) (s : IsTree l live role t) (w : ℕ)
    → is_valid (entry t w) ≡ true
    → translate t w ≡ some (entry t w)
entry-translate l live role t s w h = elim (Option-cases (find_pte t w)) [
  | inl e ↦
      let z : entry t w ≡ 0 = unfold entry find_pte in walk-leaf t.mem (indexes w) t.root_ppn e in
      let n : is_valid (entry t w) ≡ false = rw z (unfold is_valid in refl) in cc (n, h)
  | inr ((q, k), e) ↦
      let f = translate-found t w q k e in
      let (a, b, c) = found-entry l live role t s w q k e in f ∙ ap some (sym c)
]

-- A run of `map` that succeeds, with what it keeps.
record Kept (l : ℕ) (live : List ℕ) (t : PageTable) (vpn ppn flags : ℕ) : Type 0 where
  table : PageTable
  result : map t vpn ppn flags ≡ done table
  written : entry table vpn ≡ Pte.new ppn (with_v flags)
  others : (w : ℕ) → w < 2 ^ 27 → w ≢ vpn → entry table w ≡ entry t w
  live' : List ℕ
  role' : ℕ → Role
  tree : IsTree l live' role' table
  holds : (x : ℕ) → count x live ≤ count x live'
  spent : room t.allocator ≤ room table.allocator + 2

map-Kept :
    (l : ℕ) (live : List ℕ) (role : ℕ → Role) (t : PageTable) (vpn ppn flags : ℕ)
    → IsTree l live role t
    → vpn < 2 ^ 27
    → 2 ≤ room t.allocator
    → is_valid (entry t vpn) ≡ false
    → Kept l live t vpn ppn flags
unfolding map
map-Kept l live role t vpn ppn flags s h r n =
    let g = find_pte_create-Ready l live role t vpn s r in
    let (a, b, c) = found-entry l g.live' g.role' g.table g.tree vpn g.frame g.index g.found in
    let same : g.table.mem g.frame g.index ≡ entry t vpn = sym c ∙ g.kept vpn in
    let pte = Pte.new ppn (with_v flags) in
    let w = write-Written l g.live' g.role' g.table g.tree vpn g.frame g.index pte h g.found in
    let tree = put-IsTree g.tree g.frame g.index pte a in
    record {
      table = write_pte g.table (g.frame, g.index) pte;
      result = rw (g.result, same, n) refl;
      written =
          translate-entry l g.live' g.role' (write_pte g.table (g.frame, g.index) pte) tree vpn pte
            w.written;
      others = λ u hu ne. w.others u hu ne ∙ g.kept u;
      live' = g.live';
      role' = g.role';
      tree = tree;
      holds = g.holds;
      spent = g.spent;
    }

-- The pages from `vpn` on, `k` of them, after they were mapped: `frame j` is the frame of page `vpn + j`.
pub record MappedPages (l : ℕ) (live : List ℕ) (area : MapArea) (t : PageTable) (vpn k : ℕ)
    : Type 0 where
  pub area' : MapArea
  pub table : PageTable
  pub frame : ℕ → ℕ
  pub result : map_pages area t vpn k ≡ done (area', table)
  pub written : (j : ℕ) → j < k → entry table (vpn + j) ≡ Pte.new (frame j) (with_v area.map_perm)
  pub narrow : (j : ℕ) → j < k → frame j < 2 ^ 44
  pub fresh : (j : ℕ) → j < k → count (frame j) live ≡ 0
  pub distinct : (i j : ℕ) → i < k → j < k → frame i ≡ frame j → i ≡ j
  pub tracked : (j : ℕ) → j < k → frame_for area'.data_frames (vpn + j) ≡ some (frame j)
  pub untracked : (w : ℕ) → w < vpn → frame_for area'.data_frames w ≡ frame_for area.data_frames w
  pub others : (w : ℕ) → w < 2 ^ 27 → (w < vpn) ⊎ (vpn + k ≤ w) → entry table w ≡ entry t w
  pub live' : List ℕ
  pub role' : ℕ → Role
  pub tree : IsTree l live' role' table

abbrev shifted : ℕ → (ℕ → ℕ) → ℕ → ℕ
shifted x frame zero = x
shifted x frame (suc j) = frame j

-- One page, and then the others.
map_pages-step :
    (l : ℕ) (live : List ℕ) (role : ℕ → Role) (area : MapArea) (t : PageTable) (vpn k : ℕ)
    (g : Given l live role area t vpn)
    (m : Kept l (g.frame ∷ live) g.table vpn g.frame g.area'.map_perm)
    → vpn + suc k ≤ 2 ^ 27
    → MappedPages l m.live' g.area' m.table (suc vpn) k
    → MappedPages l live area t vpn (suc k)
unfolding map_pages map_one count
map_pages-step l live role area t vpn k g m b p = record {
  area' = p.area';
  table = p.table;
  frame = shifted g.frame p.frame;
  result = rw (g.result, m.result) p.result;
  written = all_written;
  narrow = all_narrow;
  fresh = all_fresh;
  distinct = all_distinct;
  tracked = all_tracked;
  untracked = λ w h.
      let ne : (vpn == w) ≡ false = ground (arith, h) in
      p.untracked w (omega (arith, h)) ∙ g.tracked w ∙ (rw ne refl);
  others = λ w h o. p.others w h (outside w o) ∙ m.others w h (apart w o) ∙ g.entries w;
  live' = p.live';
  role' = p.role';
  tree = p.tree;
}
  where
    all_written :
        (j : ℕ)
        → j < suc k
        → entry p.table (vpn + j) ≡ Pte.new (shifted g.frame p.frame j) (with_v area.map_perm)
    all_written zero h =
        let z : vpn + 0 ≡ vpn = omega arith in
        let x = p.others vpn (omega (arith, b)) (inl (omega arith)) in
        rw (z, ← g.same_perm) (x ∙ m.written)
    all_written (suc j) h =
        let z : vpn + suc j ≡ suc vpn + j = omega arith in
        rw (z, ← g.same_perm) (p.written j (omega (arith, h)))

    all_narrow : (j : ℕ) → j < suc k → shifted g.frame p.frame j < 2 ^ 44
    all_narrow zero h = g.narrow
    all_narrow (suc j) h = p.narrow j (omega (arith, h))

    held : 0 < count g.frame m.live'
    held = let x = m.holds g.frame in ground (arith, x)

    all_fresh : (j : ℕ) → j < suc k → count (shifted g.frame p.frame j) live ≡ 0
    all_fresh zero h = g.free
    all_fresh (suc j) h =
        let x = m.holds (p.frame j) in let y = p.fresh j (omega (arith, h)) in ground (arith, x, y)

    all_distinct :
        (i j : ℕ)
        → i < suc k
        → j < suc k
        → shifted g.frame p.frame i ≡ shifted g.frame p.frame j
        → i ≡ j
    all_distinct zero zero h h' e = refl
    all_distinct zero (suc j) h h' e =
        let y = p.fresh j (omega (arith, h')) in
        let x : 0 < count (p.frame j) m.live' = rw e at held in absurd (omega (arith, x, y))
    all_distinct (suc i) zero h h' e =
        let y = p.fresh i (omega (arith, h)) in
        let x : 0 < count (p.frame i) m.live' = rw (sym e) at held in absurd (omega (arith, x, y))
    all_distinct (suc i) (suc j) h h' e =
        ap suc (p.distinct i j (omega (arith, h)) (omega (arith, h')) e)

    all_tracked :
        (j : ℕ)
        → j < suc k
        → frame_for p.area'.data_frames (vpn + j) ≡ some (shifted g.frame p.frame j)
    all_tracked zero h =
        let z : vpn + 0 ≡ vpn = omega arith in
        rw z (p.untracked vpn (omega arith) ∙ g.tracked vpn ∙ (rw (==_refl vpn) refl))
    all_tracked (suc j) h =
        let z : vpn + suc j ≡ suc vpn + j = omega arith in rw z (p.tracked j (omega (arith, h)))

    outside : (w : ℕ) → (w < vpn) ⊎ (vpn + suc k ≤ w) → (w < suc vpn) ⊎ (suc vpn + k ≤ w)
    outside w (inl h) = inl (omega (arith, h))
    outside w (inr h) = inr (omega (arith, h))

    apart : (w : ℕ) → (w < vpn) ⊎ (vpn + suc k ≤ w) → w ≢ vpn
    apart w (inl h) e = omega (arith, h, e)
    apart w (inr h) e = omega (arith, h, e)

pub map_pages-Mapped :
    (k : ℕ) (l : ℕ) (live : List ℕ) (role : ℕ → Role) (area : MapArea) (t : PageTable) (vpn : ℕ)
    → IsTree l live role t
    → area.map_type ≡ framed
    → vpn + k ≤ 2 ^ 27
    → 3 * k ≤ room t.allocator
    → ((w : ℕ) → vpn ≤ w → w < vpn + k → is_valid (entry t w) ≡ false)
    → ((w : ℕ) → vpn ≤ w → w < vpn + k → frame_for area.data_frames w ≡ none)
    → MappedPages l live area t vpn k
unfolding map_pages
map_pages-Mapped zero l live role area t vpn s f b r n u = record {
  area' = area;
  table = t;
  frame = λ j. 0;
  result = refl;
  written = λ j h. absurd (omega (arith, h));
  narrow = λ j h. absurd (omega (arith, h));
  fresh = λ j h. absurd (omega (arith, h));
  distinct = λ i j h. absurd (omega (arith, h));
  tracked = λ j h. absurd (omega (arith, h));
  untracked = λ w h. refl;
  others = λ w h o. refl;
  live' = live;
  role' = role;
  tree = s;
}
map_pages-Mapped (suc k) l live role area t vpn s f b r n u =
    let here : vpn < vpn + suc k = omega arith in
    let g =
      give_frame-Given l live role area t vpn s f (u vpn (omega arith) here) (omega (arith, r)) in
    let same = g.entries in
    let m =
      map-Kept l (g.frame ∷ live) role g.table vpn g.frame g.area'.map_perm g.tree
        (omega (arith, b)) (omega (arith, r, g.spent)) (rw (same vpn) (n vpn (omega arith) here)) in
    map_pages-step l live role area t vpn k g m b (
      map_pages-Mapped k l m.live' m.role' g.area' m.table (suc vpn) m.tree g.same_type
        (omega (arith, b)) (omega (arith, r, g.spent, m.spent))
        (λ w lo hi.
          rw (m.others w (omega (arith, hi, b)) (λ e. omega (arith, e, lo)) ∙ same w)
            (n w (omega (arith, lo)) (omega (arith, hi))))
        (λ w lo hi.
          let ne : (vpn == w) ≡ false = ground (arith, lo) in
          g.tracked w ∙ (rw ne (u w (omega (arith, lo)) (omega (arith, hi))))))
