-- ===== src/Mm/PageTable/Walk.antt =====
-- `create_level` and the loop of `find_pte_create` succeed where enough frames are left.
use nimloth_os.Prelude.{
  ℕ, ◌+◌, ◌%◌, ◌-◌, ◌^◌, ◌≤◌, ◌<◌, ◌≡◌, refl, inl, inr, Bool-cases, true, false, Option, none, some,
  List, [], ◌∷◌, arith, ◌==◌, length, count, done, ◌∙◌, subst,
}
use nimloth_os.Mm.FrameAllocator.{StackFrameAllocator, alloc}
use nimloth_os.Mm.FrameAllocator.Ownership
use nimloth_os.Mm.FrameAllocator.Ownership.{Alloc, granted, exhausted, alloc_lem}
use nimloth_os.Mm.Pte.{ppn_of, is_valid}
use nimloth_os.Mm.Pte.Fields.{new-ppn}
use nimloth_os.Mm.PageTable.{
  PageTable, Frames, walk, walk_create, create_level, frame_alloc, zeroed,
}
use nimloth_os.Mm.PageTable.Tree.{Role, child, depth, depth-child, IsTree, room}
use nimloth_os.Mm.PageTable.Create.{Grown, grow, added, grow-Grown, grow-entry, grow-role}

-- What a grant says of its frame.
abbrev pub Granted : ℕ → List ℕ → StackFrameAllocator → Option ℕ × StackFrameAllocator → Type 0
Granted l live a (some x, a') = (x < a.end) × (count x live ≡ 0) × Ownership.IsValid l (x ∷ live) a'
Granted l live a (none, a') = Unit

Alloc-Granted :
    {l : ℕ} {live : List ℕ} {a : StackFrameAllocator} {r : Option ℕ × StackFrameAllocator}
    → Alloc l live a r
    → Granted l live a r
Alloc-Granted (granted lo hi free same v) = (hi, free, v)
Alloc-Granted (exhausted full) = tt

-- With room left the allocator grants a frame, and the room shrinks by one.
pub alloc-room :
    (l : ℕ) (live : List ℕ) (a : StackFrameAllocator)
    → Ownership.IsValid l live a
    → 0 < room a
    → (x : ℕ) × (a' : StackFrameAllocator) × (alloc a ≡ (some x, a'))
      × (room a ≡ room a' + 1)
      × Granted l live a (some x, a')
unfolding alloc
alloc-room l live a v h =
    let (x, a', e, r) = by_list a.recycled h in
    (x, a', e, r, subst (Granted l live a) e (Alloc-Granted (alloc_lem l live a v)))
  where
    by_list :
        (rec : List ℕ)
        → let b : StackFrameAllocator = record a { recycled = rec } in
          0 < room b
          → (x : ℕ) × (a' : StackFrameAllocator) × (alloc b ≡ (some x, a')) × (room b ≡ room a' + 1)
    by_list [] h =
        let n : (a.current == a.end) ≡ false = ground arith in
        let next : (a.current + 1) % 2 ^ 64 ≡ a.current + 1 = omega (arith, v.width, v.within, h) in
        (
          ((a.current + 1) % 2 ^ 64 + (2 ^ 64 - 1)) % 2 ^ 64 % 2 ^ 44,
          record a { current = (a.current + 1) % 2 ^ 64; recycled = [] },
          rw n refl,
          omega (arith, next, h),
        )
    by_list (x ∷ rest) h = (x % 2 ^ 44, record a { recycled = rest }, refl, omega arith)

-- What one level of the creation gives: the table of the next index, reached by the entry.
record NextTable (l : ℕ) (live : List ℕ) (role : ℕ → Role) (t : PageTable) (ppn idx : ℕ)
    : Type 0 where
  table : PageTable
  next : ℕ
  live' : List ℕ
  role' : ℕ → Role
  result : create_level t ppn idx ≡ done (table, next)
  grown : Grown l live role t live' role' table
  spent : room t.allocator ≤ room table.allocator + 1
  valid : is_valid (table.mem ppn idx) ≡ true
  points : ppn_of (table.mem ppn idx) ≡ next
  child_role : role' next ≡ child (role ppn) idx
  holds : (x : ℕ) → count x live ≤ count x live'

unchanged :
    {l : ℕ} {live : List ℕ} {role : ℕ → Role} {t : PageTable}
    → IsTree l live role t
    → Grown l live role t live role t
unchanged s = record {
  tree = s;
  same_root = refl;
  kept_role = λ p h. refl;
  kept_entry = λ p i h v. refl;
  kept_leaf = λ path p h d. refl;
}

pub frame_alloc-granted :
    (mem : Frames) (a : StackFrameAllocator) (x : ℕ) (a' : StackFrameAllocator)
    → alloc a ≡ (some x, a')
    → frame_alloc mem a ≡ some (x, zeroed mem x, a')
unfolding frame_alloc
frame_alloc-granted mem a x a' e =
    λ i. elim (e i).0 [ none ↦ none | some ppn ↦ some (ppn, zeroed mem ppn, (e i).1) ]

create_level-missing :
    (t : PageTable) (ppn idx x : ℕ) (a' : StackFrameAllocator)
    → is_valid (t.mem ppn idx) ≡ false
    → alloc t.allocator ≡ (some x, a')
    → x < 2 ^ 44
    → create_level t ppn idx ≡ done (grow t ppn idx x a', x)
unfolding create_level grow
create_level-missing t ppn idx x a' n e h =
    rw (n, frame_alloc-granted t.mem t.allocator x a' e, new-ppn x h) refl

create_level-NextTable :
    (l : ℕ) (live : List ℕ) (role : ℕ → Role) (t : PageTable) (ppn idx : ℕ)
    → IsTree l live role t
    → 1 < depth (role ppn)
    → 0 < room t.allocator
    → NextTable l live role t ppn idx
unfolding create_level
create_level-NextTable l live role t ppn idx s inner h =
    elim (Bool-cases (is_valid (t.mem ppn idx))) [
      | inl v ↦ record {
        table = t;
        next = ppn_of (t.mem ppn idx);
        live' = live;
        role' = role;
        result = rw v refl;
        grown = unchanged s;
        spent = omega arith;
        valid = v;
        points = refl;
        child_role = s.linked ppn idx inner v;
        holds = λ x. omega arith;
      }
      | inr n ↦
          let (x, a', e, r, g) = alloc-room l live t.allocator s.frames h in
          let (hi, free, v) = g in
          let narrow : x < 2 ^ 44 = omega (arith, hi, s.frames.width) in
          record {
            table = grow t ppn idx x a';
            next = x;
            live' = x ∷ live;
            role' = added role x (child (role ppn) idx);
            result = create_level-missing t ppn idx x a' n e narrow;
            grown = grow-Grown l live role t ppn idx x a' s inner n free narrow v;
            spent = unfold grow in omega (arith, r);
            valid = (grow-entry l live role t ppn idx x a' s inner n free narrow v).0;
            points = (grow-entry l live role t ppn idx x a' s inner n free narrow v).1;
            child_role = grow-role l live role t ppn idx x a' s inner n free narrow v;
            holds = λ y. unfold count in ground arith;
          }
    ]

Grown-trans :
    {l : ℕ} {live live' live'' : List ℕ} {role role' role'' : ℕ → Role} {t t' t'' : PageTable}
    → Grown l live role t live' role' t'
    → Grown l live' role' t' live'' role'' t''
    → Grown l live role t live'' role'' t''
Grown-trans {role = role} {role' = role'} {t = t} {t' = t'} g h =
    let alive : (p : ℕ) → 0 < depth (role p) → 0 < depth (role' p) =
      λ p d. rw (g.kept_role p d) d in
    record {
      tree = h.tree;
      same_root = h.same_root ∙ g.same_root;
      kept_role = λ p d. h.kept_role p (alive p d) ∙ g.kept_role p d;
      kept_entry =
          λ p i d v. let e = g.kept_entry p i d v in h.kept_entry p i (alive p d) (rw e v) ∙ e;
      kept_leaf = λ path p d n.
          h.kept_leaf path p (alive p d) (rw (g.kept_role p d) n) ∙ g.kept_leaf path p d n;
    }

-- The loop of `find_pte_create` from a table whose remaining indexes are `path`.
pub record Found (l : ℕ) (live : List ℕ) (role : ℕ → Role) (t : PageTable) (ppn : ℕ) (path : List ℕ)
    : Type 0 where
  pub table : PageTable
  pub frame : ℕ
  pub index : ℕ
  pub live' : List ℕ
  pub role' : ℕ → Role
  pub result : walk_create t ppn path ≡ done (table, some (frame, index))
  pub grown : Grown l live role t live' role' table
  pub walked : walk table.mem ppn path ≡ some (frame, index)
  pub spent : room t.allocator + 1 ≤ room table.allocator + length path
  pub holds : (x : ℕ) → count x live ≤ count x live'

pub walk_create-Found :
    (path : List ℕ) (l : ℕ) (live : List ℕ) (role : ℕ → Role) (t : PageTable) (ppn : ℕ)
    → IsTree l live role t
    → 0 < depth (role ppn)
    → length path ≡ depth (role ppn)
    → length path ≤ room t.allocator + 1
    → Found l live role t ppn path
unfolding walk_create walk
walk_create-Found [] l live role t ppn s h n r = absurd (omega (arith, h, n))
walk_create-Found (i ∷ []) l live role t ppn s h n r = record {
  table = t;
  frame = ppn;
  index = i;
  live' = live;
  role' = role;
  result = refl;
  grown = unchanged s;
  walked = refl;
  spent = omega arith;
  holds = λ x. omega arith;
}
walk_create-Found (i ∷ j ∷ path) l live role t ppn s h n r =
    let inner : 1 < depth (role ppn) = omega (arith, n) in
    let lv = create_level-NextTable l live role t ppn i s inner (omega (arith, r)) in
    let d = depth-child (role ppn) i inner in
    let c : depth (lv.role' lv.next) ≡ depth (child (role ppn) i) = rw lv.child_role refl in
    let f =
      walk_create-Found (j ∷ path) l lv.live' lv.role' lv.table lv.next lv.grown.tree
        (omega (arith, c, d, inner)) (omega (arith, c, d, n)) (omega (arith, lv.spent, r)) in
    let e = f.grown.kept_entry ppn i (rw (lv.grown.kept_role ppn h) h) lv.valid in
    record {
      table = f.table;
      frame = f.frame;
      index = f.index;
      live' = f.live';
      role' = f.role';
      result = rw lv.result f.result;
      grown = Grown-trans {live'' = f.live'} {role'' = f.role'} {t'' = f.table} lv.grown f.grown;
      walked = rw (e, lv.valid, lv.points) f.walked;
      spent = omega (arith, lv.spent, f.spent);
      holds = λ x. omega (arith, lv.holds x, f.holds x);
    }
