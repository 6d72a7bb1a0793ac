-- ===== src/Mm/MemorySet/Granting.antt =====
-- The frame of a page of a framed area: a new one, whose zeroing leaves the page table alone.
use nimloth_os.Prelude.{
  ℕ, ◌+◌, ◌^◌, ◌<◌, ◌≡◌, refl, inl, inr, Bool-cases, ==_eq, false, Option, none, some, List, [],
  ◌∷◌, arith, ◌==◌, if◌then◌else◌, length, count, done,
}
use nimloth_os.Mm.Address.{indexes}
use nimloth_os.Mm.FrameAllocator.{StackFrameAllocator}
use nimloth_os.Mm.FrameAllocator.Ownership
use nimloth_os.Mm.Pte.{ppn_of, is_valid}
use nimloth_os.Mm.PageTable.{PageTable, zeroed}
use nimloth_os.Mm.PageTable.Tree.{Role, depth, depth-linked, IsTree, leaf, room}
use nimloth_os.Mm.PageTable.Walk.{alloc-room, frame_alloc-granted}
use nimloth_os.Mm.PageTable.Mapping.{entry, root-length}
use nimloth_os.Mm.MemorySet.{MapArea, framed, insert_frame, give_frame}

-- The frame of a page in an area.
abbrev pub frame_for : List (ℕ × ℕ) → ℕ → Option ℕ
frame_for [] vpn = none
frame_for ((v, p) ∷ rest) vpn = let found = frame_for rest vpn in if v == vpn then some p else found

pub insert_frame-new :
    (frames : List (ℕ × ℕ)) (vpn ppn : ℕ)
    → frame_for frames vpn ≡ none
    → ((insert_frame frames vpn ppn).1 ≡ none)
      × ((w : ℕ)
          → frame_for (insert_frame frames vpn ppn).0 w
            ≡ (if vpn == w then some ppn else frame_for frames w))
unfolding insert_frame
insert_frame-new [] vpn ppn h = (refl, λ w. refl)
insert_frame-new ((v, p) ∷ rest) vpn ppn h = elim (Bool-cases (v == vpn)) [
  | inl e ↦ cc (rw e at h)
  | inr e ↦
      let (a, b) = insert_frame-new rest vpn ppn (rw e at h) in
      (
        rw (e, a) refl,
        λ w. rw e (behind w (frame_for (insert_frame rest vpn ppn).0 w) (frame_for rest w) e (b w)),
      )
]
  where
    behind :
        (w : ℕ) (new old : Option ℕ)
        → (v == vpn) ≡ false
        → new ≡ (if vpn == w then some ppn else old)
        → (if v == w then some p else new)
          ≡ (if vpn == w then some ppn else if v == w then some p else old)
    behind w new old e h = elim (Bool-cases (v == w)) [
      | inr f ↦ rw f h
      | inl f ↦
          let s : v ≡ w = ==_eq v w f in
          let g : (vpn == w) ≡ false = ground (arith, e, s) in rw (f, g) refl
    ]

module _ (l : ℕ) (live : List ℕ) (role : ℕ → Role) (t : PageTable) (x : ℕ) (a : StackFrameAllocator)
    (s : IsTree l live role t) (free : count x live ≡ 0)
    (v : Ownership.IsValid l (x ∷ live) a) where
  abbrev pub given : PageTable
  given = record t { mem = zeroed t.mem x; allocator = a }

  table_kept : (p i : ℕ) → 0 < depth (role p) → zeroed t.mem x p i ≡ t.mem p i
  table_kept p i h = elim (Bool-cases (p == x)) [
    | inr e ↦ rw e refl
    | inl e ↦
        let q : p ≡ x = ==_eq p x e in
        let u : 0 < count x live = rw q at (s.used p h) in absurd (omega (arith, u, free))
  ]

  zeroed-leaf :
      (path : List ℕ) (p : ℕ)
      → 0 < depth (role p)
      → length path ≡ depth (role p)
      → leaf (zeroed t.mem x) p path ≡ leaf t.mem p path
  unfolding leaf
  zeroed-leaf [] p h n = refl
  zeroed-leaf (i ∷ []) p h n = table_kept p i h
  zeroed-leaf (i ∷ j ∷ path) p h n =
      rw (table_kept p i h) (elim (Bool-cases (is_valid (t.mem p i))) [
        | inr e ↦ rw e refl
        | inl e ↦
            let d = depth-linked s p i (omega (arith, n)) e in
            rw e (
              zeroed-leaf (j ∷ path) (ppn_of (t.mem p i)) (omega (arith, d, n))
                (omega (arith, d, n)))
      ])

  pub given-entry : (w : ℕ) → entry given w ≡ entry t w
  unfolding entry
  given-entry w =
      zeroed-leaf (indexes w) t.root_ppn (rw s.root (omega arith)) (root-length l live role t s w)

  pub given-IsTree : IsTree l (x ∷ live) role given
  given-IsTree = record {
    frames = v;
    root = s.root;
    linked =
        λ p i h w. let k = table_kept p i (omega (arith, h)) in rw k (s.linked p i h (rw k at w));
    used = λ p h. more p (s.used p h);
  }
    where
      more : (p : ℕ) → 0 < count p live → 0 < count p (x ∷ live)
      more p h = unfold count in ground (arith, h)

-- What `map_one` of a framed area takes for a page: a frame that nobody holds.
pub record Given (l : ℕ) (live : List ℕ) (role : ℕ → Role) (area : MapArea) (t : PageTable)
    (vpn : ℕ) : Type 0 where
  pub frame : ℕ
  pub area' : MapArea
  pub table : PageTable
  pub result : give_frame area t vpn ≡ done (area', table, frame)
  pub tree : IsTree l (frame ∷ live) role table
  pub free : count frame live ≡ 0
  pub narrow : frame < 2 ^ 44
  pub entries : (w : ℕ) → entry table w ≡ entry t w
  pub spent : room t.allocator ≡ room table.allocator + 1
  pub tracked :
      (w : ℕ)
      → frame_for area'.data_frames w
        ≡ (if vpn == w then some frame else frame_for area.data_frames w)
  pub same_type : area'.map_type ≡ framed
  pub same_perm : area'.map_perm ≡ area.map_perm

pub give_frame-Given :
    (l : ℕ) (live : List ℕ) (role : ℕ → Role) (area : MapArea) (t : PageTable) (vpn : ℕ)
    → IsTree l live role t
    → area.map_type ≡ framed
    → frame_for area.data_frames vpn ≡ none
    → 0 < room t.allocator
    → Given l live role area t vpn
unfolding give_frame
give_frame-Given l live role area t vpn s f new r =
    let (x, a, e, spent, g) = alloc-room l live t.allocator s.frames r in
    let (hi, free, v) = g in
    let (no_old, tracked) = insert_frame-new area.data_frames vpn x new in
    record {
      frame = x;
      area' = record area { data_frames = (insert_frame area.data_frames vpn x).0 };
      table = given l live role t x a s free v;
      result = rw (f, frame_alloc-granted t.mem t.allocator x a e, no_old) refl;
      tree = given-IsTree l live role t x a s free v;
      free = free;
      narrow = omega (arith, hi, s.frames.width);
      entries = given-entry l live role t x a s free v;
      spent = spent;
      tracked = tracked;
      same_type = f;
      same_perm = refl;
    }
