-- ===== src/Mm/PageTable/Mapping.antt =====
-- `map`, `unmap` and `translate` on a page table.
use nimloth_os.Prelude.{
  ℕ, ◌+◌, ◌*◌, ◌%◌, ◌^◌, ◌<◌, ◌≤◌, ◌≡◌, ◌≢◌, refl, ap, sym, ◌∙◌, inl, inr, true, false, none, some,
  List, [], ◌∷◌, arith, length, count, done, panic, Option-cases,
}
use nimloth_os.Mm.Address.{
  VirtPageNum, indexes, floor, page_offset, addr_from_page_num, phys_addr_from, page_size,
}
use nimloth_os.Mm.Address.Pages.{indexes-injective}
use nimloth_os.Mm.Pte
use nimloth_os.Mm.Pte.{PageTableEntry, is_valid, ppn_of, with_v}
use nimloth_os.Mm.Pte.Fields.{entry_fields}
use nimloth_os.Mm.PageTable.{
  PageTable, write_pte, read_pte, find_pte, find_pte_create, map, unmap, translate, translate_va,
}
use nimloth_os.Mm.PageTable.Tree.{Role, depth, full, IsTree, leaf, room}
use nimloth_os.Mm.PageTable.Walk.{walk_create-Found}
use nimloth_os.Mm.PageTable.Entries.{walk-leaf, walk-full, put-walk, put-leaf, put-IsTree, put-same}

-- The entry of a page: what its walk finds, 0 where a table is missing.
unfoldable pub entry : PageTable → VirtPageNum → PageTableEntry
entry t vpn = leaf t.mem t.root_ppn (indexes vpn)

-- `t'` is `t` with the entry of one page set to `v`.
pub record Written (l : ℕ) (t : PageTable) (vpn v : ℕ) (t' : PageTable) : Type 0 where
  pub written : translate t' vpn ≡ some v
  pub others : (w : ℕ) → w < 2 ^ 27 → w ≢ vpn → entry t' w ≡ entry t w
  pub live' : List ℕ
  pub role' : ℕ → Role
  pub tree : IsTree l live' role' t'

length-indexes : (vpn : ℕ) → length (indexes vpn) ≡ 3
unfolding indexes
length-indexes vpn = refl

pub translate-found :
    (t : PageTable) (vpn q k : ℕ)
    → find_pte t vpn ≡ some (q, k)
    → translate t vpn ≡ some (t.mem q k)
unfolding translate
translate-found t vpn q k e = λ i. elim (e i) [ none ↦ none | some pte ↦ some (read_pte t pte) ]

module _ (l : ℕ) (live : List ℕ) (role : ℕ → Role) (t : PageTable) (s : IsTree l live role t) where
  pub root-length : (w : ℕ) → length (indexes w) ≡ depth (role t.root_ppn)
  root-length w = rw s.root (length-indexes w)

  pub found-entry :
      (vpn q k : ℕ)
      → find_pte t vpn ≡ some (q, k)
      → (depth (role q) ≡ 1) × (full (role q) (k ∷ []) ≡ indexes vpn) × (entry t vpn ≡ t.mem q k)
  unfolding find_pte entry
  found-entry vpn q k e =
      let (a, b, c) = walk-full s (indexes vpn) t.root_ppn q k (root-length vpn) e in
      (a, rw s.root at b, c)

  pub write-Written :
      (vpn q k v : ℕ)
      → vpn < 2 ^ 27
      → find_pte t vpn ≡ some (q, k)
      → Written l t vpn v (write_pte t (q, k) v)
  unfolding find_pte entry
  write-Written vpn q k v h e =
      let (a, b, c) = found-entry vpn q k e in
      let e' = put-walk s q k v a (indexes vpn) t.root_ppn (root-length vpn) e in
      record {
        written =
            translate-found (write_pte t (q, k) v) vpn q k e' ∙ ap some (put-same t.mem q k v);
        others = λ w hw n.
            put-leaf s q k v a (indexes w) t.root_ppn (root-length w)
              λ f. n (indexes-injective w vpn hw h ((rw s.root at f) ∙ b));
        live' = live;
        role' = role;
        tree = put-IsTree s q k v a;
      }

  unmap_found :
      (vpn q k : ℕ)
      → find_pte t vpn ≡ some (q, k)
      → is_valid (t.mem q k) ≡ true
      → unmap t vpn ≡ done (write_pte t (q, k) 0)
  unfolding unmap
  unmap_found vpn q k e v = rw (e, v) refl

  unmap_invalid : (vpn : ℕ) → is_valid (entry t vpn) ≡ false → unmap t vpn ≡ panic
  unfolding unmap
  unmap_invalid vpn n = elim (Option-cases (find_pte t vpn)) [
    | inl e ↦ rw e refl
    | inr ((q, k), e) ↦ rw (e, (rw (found-entry vpn q k e).2 at n)) refl
  ]

  unmap_valid :
      (vpn : ℕ)
      → vpn < 2 ^ 27
      → is_valid (entry t vpn) ≡ true
      → (t' : PageTable) × (unmap t vpn ≡ done t') × Written l t vpn 0 t'
  unfolding entry find_pte
  unmap_valid vpn h v = elim (Option-cases (find_pte t vpn)) [
    | inl e ↦
        let z = walk-leaf t.mem (indexes vpn) t.root_ppn e in
        let n : is_valid (leaf t.mem t.root_ppn (indexes vpn)) ≡ false =
          rw z (unfold is_valid in refl) in
        cc (n, v)
    | inr ((q, k), e) ↦ (
      write_pte t (q, k) 0,
      unmap_found vpn q k e (rw (found-entry vpn q k e).2 at v),
      write-Written vpn q k 0 h e,
    )
  ]

-- `unmap` of a page whose entry is valid clears that entry, keeps the entries of all other pages, and
-- keeps the table a tree; `unmap` of a page whose entry is not valid panics.
pub unmap_lem :
    (l : ℕ) (live : List ℕ) (role : ℕ → Role) (t : PageTable) (vpn : ℕ)
    → IsTree l live role t
    → vpn < 2 ^ 27
    → (is_valid (entry t vpn) ≡ true
        → (t' : PageTable) × (unmap t vpn ≡ done t') × Written l t vpn 0 t')
      × (is_valid (entry t vpn) ≡ false → unmap t vpn ≡ panic)
unmap_lem l live role t vpn s h =
    (unmap_valid l live role t s vpn h, unmap_invalid l live role t s vpn)

-- The state in which `find_pte_create` leaves a page table.
pub record Ready (l : ℕ) (live : List ℕ) (t : PageTable) (vpn : ℕ) : Type 0 where
  pub table : PageTable
  pub frame : ℕ
  pub index : ℕ
  pub live' : List ℕ
  pub role' : ℕ → Role
  pub result : find_pte_create t vpn ≡ done (table, some (frame, index))
  pub tree : IsTree l live' role' table
  pub found : find_pte table vpn ≡ some (frame, index)
  pub kept : (w : ℕ) → entry table w ≡ entry t w
  pub spent : room t.allocator ≤ room table.allocator + 2
  pub holds : (x : ℕ) → count x live ≤ count x live'

pub find_pte_create-Ready :
    (l : ℕ) (live : List ℕ) (role : ℕ → Role) (t : PageTable) (vpn : ℕ)
    → IsTree l live role t
    → 2 ≤ room t.allocator
    → Ready l live t vpn
unfolding find_pte_create find_pte entry
find_pte_create-Ready l live role t vpn s r =
    let some_depth : 0 < depth (role t.root_ppn) = rw s.root (omega arith) in
    let n = root-length l live role t s in
    let f =
      walk_create-Found (indexes vpn) l live role t t.root_ppn s some_depth (n vpn)
        (omega (arith, r, length-indexes vpn)) in
    record {
      table = f.table;
      frame = f.frame;
      index = f.index;
      live' = f.live';
      role' = f.role';
      result = f.result;
      tree = f.grown.tree;
      found = rw f.grown.same_root f.walked;
      kept = λ w. rw f.grown.same_root (f.grown.kept_leaf (indexes w) t.root_ppn some_depth (n w));
      spent = omega (arith, f.spent, length-indexes vpn);
      holds = f.holds;
    }

map_prepared :
    (l : ℕ) (t : PageTable) (vpn ppn flags : ℕ) (live : List ℕ) (g : Ready l live t vpn)
    → vpn < 2 ^ 27
    → (is_valid (entry t vpn) ≡ false
        → (t' : PageTable) × (map t vpn ppn flags ≡ done t')
          × Written l t vpn (Pte.new ppn (with_v flags)) t')
      × (is_valid (entry t vpn) ≡ true → map t vpn ppn flags ≡ panic)
unfolding map
map_prepared l t vpn ppn flags live g h =
    let (a, b, c) = found-entry l g.live' g.role' g.table g.tree vpn g.frame g.index g.found in
    let same : g.table.mem g.frame g.index ≡ entry t vpn = sym c ∙ g.kept vpn in
    let pte = Pte.new ppn (with_v flags) in
    let w = write-Written l g.live' g.role' g.table g.tree vpn g.frame g.index pte h g.found in
    (
      λ n. (
        write_pte g.table (g.frame, g.index) pte,
        rw (g.result, same, n) refl,
        record {
          written = w.written;
          others = λ u hu ne. w.others u hu ne ∙ g.kept u;
          live' = w.live';
          role' = w.role';
          tree = w.tree;
        },
      ),
      λ v. rw (g.result, same, v) refl,
    )

-- With two frames to spare, `map` of a page whose entry is not valid succeeds and makes its entry the
-- given frame with the given flags and V, keeps the entries of all other pages, and keeps the table a
-- tree, whatever tables were missing; `map` of a page whose entry is valid panics.
pub map_lem :
    (l : ℕ) (live : List ℕ) (role : ℕ → Role) (t : PageTable) (vpn ppn flags : ℕ)
    → IsTree l live role t
    → vpn < 2 ^ 27
    → 2 ≤ room t.allocator
    → (is_valid (entry t vpn) ≡ false
        → (t' : PageTable) × (map t vpn ppn flags ≡ done t')
          × Written l t vpn (Pte.new ppn (with_v flags)) t')
      × (is_valid (entry t vpn) ≡ true → map t vpn ppn flags ≡ panic)
map_lem l live role t vpn ppn flags s h r =
    map_prepared l t vpn ppn flags live (find_pte_create-Ready l live role t vpn s r) h

translate_va-found :
    (t : PageTable) (va q k : ℕ)
    → find_pte t (floor va) ≡ some (q, k)
    → translate_va t va
      ≡ some (phys_addr_from (addr_from_page_num (ppn_of (t.mem q k)) + page_offset va))
unfolding translate_va
translate_va-found t va q k e = λ i. elim (e i) [
  | none ↦ none
  | some pte ↦ some (phys_addr_from (addr_from_page_num (ppn_of (read_pte t pte)) + page_offset va))
]

same_offset :
    (va ppn flags : ℕ)
    → ppn < 2 ^ 44
    → flags < 2 ^ 8
    → phys_addr_from (addr_from_page_num (ppn_of (Pte.new ppn flags)) + page_offset va)
      ≡ ppn * page_size + va % page_size
unfolding phys_addr_from addr_from_page_num page_offset
same_offset va ppn flags hp hf = rw ((entry_fields ppn flags hp hf).0) (omega arith)

-- In a page table where `translate` gives a page the entry of a 44-bit frame number and flags,
-- `translate_va` sends each address of that page to the same offset in the frame.
pub translate_va_lem :
    (t : PageTable) (va ppn flags : ℕ)
    → ppn < 2 ^ 44
    → flags < 2 ^ 8
    → translate t (floor va) ≡ some (Pte.new ppn flags)
    → translate_va t va ≡ some (ppn * page_size + va % page_size)
translate_va_lem t va ppn flags hp hf e = elim (Option-cases (find_pte t (floor va))) [
  | inl n ↦
      let z : translate t (floor va) ≡ none = unfold translate in rw (n, translate) refl in
      cc (z, e)
  | inr ((q, k), f) ↦
      let z : t.mem q k ≡ Pte.new ppn flags = cc (translate-found t (floor va) q k f, e) in
      translate_va-found t va q k f ∙ (rw z (ap some (same_offset va ppn flags hp hf)))
]
