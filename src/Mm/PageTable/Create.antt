-- ===== src/Mm/PageTable/Create.antt =====
-- `find_pte_create` adds the missing tables and changes no entry that a walk can reach.
use nimloth_os.Prelude.{
  ℕ, ◌^◌, ◌<◌, ◌≡◌, ◌≢◌, refl, ap, sym, inl, inr, Bool-cases, ==_eq, true, false, List, [], ◌∷◌,
  arith, ◌==◌, ◌&&◌, if◌then◌else◌, length, count,
}
use nimloth_os.Mm.FrameAllocator.{StackFrameAllocator}
use nimloth_os.Mm.FrameAllocator.Ownership
use nimloth_os.Mm.FrameAllocator.Ownership.{Alloc, granted, exhausted, alloc_lem}
use nimloth_os.Mm.Pte
use nimloth_os.Mm.Pte.{ppn_of, is_valid}
use nimloth_os.Mm.Pte.Fields.{new-ppn, new-is_valid}
use nimloth_os.Mm.PageTable.{PageTable, Frames, put, zeroed}
use nimloth_os.Mm.PageTable.Tree.{Role, child, depth, depth-linked, IsTree, leaf}

-- What a step of the creation keeps: the tree with more tables, the old tables with their roles, the
-- valid entries, and what every walk finds.
pub record Grown (l : ℕ) (live : List ℕ) (role : ℕ → Role) (t : PageTable) (live' : List ℕ)
    (role' : ℕ → Role) (t' : PageTable) : Type 0 where
  pub tree : IsTree l live' role' t'
  pub same_root : t'.root_ppn ≡ t.root_ppn
  pub kept_role : (p : ℕ) → 0 < depth (role p) → role' p ≡ role p
  pub kept_entry :
      (p i : ℕ) → 0 < depth (role p) → is_valid (t.mem p i) ≡ true → t'.mem p i ≡ t.mem p i
  pub kept_leaf :
      (path : List ℕ) (p : ℕ)
      → 0 < depth (role p)
      → length path ≡ depth (role p)
      → leaf t'.mem p path ≡ leaf t.mem p path

-- a new table
abbrev pub added : (ℕ → Role) → ℕ → Role → ℕ → Role
added role x r p = if p == x then r else role p

unfoldable pub grow : PageTable → ℕ → ℕ → ℕ → StackFrameAllocator → PageTable
grow t ppn idx x a = record t {
  mem = put (zeroed t.mem x) ppn idx (Pte.new x 1);
  allocator = a;
  frames = x ∷ t.frames;
}

pub leaf-zero :
    (mem : Frames) (x : ℕ) (path : List ℕ) → ((i : ℕ) → mem x i ≡ 0) → leaf mem x path ≡ 0
unfolding leaf is_valid
leaf-zero mem x [] h = refl
leaf-zero mem x (i ∷ []) h = h i
leaf-zero mem x (i ∷ j ∷ path) h = rw (h i) refl

module _ (l : ℕ) (live : List ℕ) (role : ℕ → Role) (t : PageTable) (ppn idx x : ℕ)
    (a : StackFrameAllocator) (s : IsTree l live role t) (inner : 1 < depth (role ppn))
    (missing : is_valid (t.mem ppn idx) ≡ false) (free : count x live ≡ 0) (narrow : x < 2 ^ 44)
    (frames' : Ownership.IsValid l (x ∷ live) a) where
  fresh : depth (role x) ≡ 0
  fresh = ground (arith, s.used x, free)

  old : (p : ℕ) → 0 < depth (role p) → p ≢ x
  old p h e = let d : depth (role p) ≡ 0 = rw e fresh in omega (arith, h, d)

  mem' : Frames
  mem' = (grow t ppn idx x a).mem

  mem'-made : mem' ppn idx ≡ Pte.new x 1
  unfolding mem' grow
  mem'-made = ground arith

  mem'-kept : (p i : ℕ) → 0 < depth (role p) → (p ≡ ppn → i ≡ idx → ⊥) → mem' p i ≡ t.mem p i
  unfolding mem' grow
  mem'-kept p i h n = ground (arith, old p h, n)

  mem'-zero : (i : ℕ) → mem' x i ≡ 0
  unfolding mem' grow
  mem'-zero i = ground (arith, old ppn (omega (arith, inner)))

  mem'-valid : (p i : ℕ) → 0 < depth (role p) → is_valid (t.mem p i) ≡ true → mem' p i ≡ t.mem p i
  mem'-valid p i h v = mem'-kept p i h λ e f. cc (e, f, v, missing)

  below-made : (path : List ℕ) → leaf mem' (ppn_of (mem' ppn idx)) path ≡ 0
  below-made path = rw (mem'-made, new-ppn x narrow) (leaf-zero mem' x path mem'-zero)

  grown-leaf :
      (path : List ℕ) (p : ℕ)
      → 0 < depth (role p)
      → length path ≡ depth (role p)
      → leaf mem' p path ≡ leaf t.mem p path
  unfolding leaf
  grown-leaf [] p h d = refl
  grown-leaf (i ∷ []) p h d =
      mem'-kept p i h λ e _. omega (arith, inner, d, ap (λ (q : ℕ). depth (role q)) e)
  grown-leaf (i ∷ j ∷ path) p h d = elim (Bool-cases (is_valid (t.mem p i))) [
    | inl v ↦
        let down = depth-linked s p i (omega (arith, d)) v in
        rw (mem'-valid p i h v, v)
          (grown-leaf (j ∷ path) (ppn_of (t.mem p i)) (omega (arith, down, d))
            (omega (arith, down, d)))
    | inr n ↦ rw n (elim (Bool-cases ((p == ppn) && (i == idx))) [
      | inl e ↦
          let ep : p ≡ ppn = ground arith in
          let ei : i ≡ idx = ground arith in rw (ep, ei, below-made (j ∷ path)) (ground arith)
      | inr e ↦ rw (mem'-kept p i h λ ep ei. ground arith, n) refl
    ])
  ]

  role' : ℕ → Role
  role' = added role x (child (role ppn) idx)

  role'-kept : (p : ℕ) → 0 < depth (role p) → role' p ≡ role p
  unfolding role'
  role'-kept p h = ground (arith, old p h)

  role'-depth : (p : ℕ) → p ≢ x → role' p ≡ role p
  unfolding role'
  role'-depth p h = ground arith

  role'-made : role' x ≡ child (role ppn) idx
  unfolding role'
  role'-made = ground arith

  linked-made : role' (ppn_of (mem' ppn idx)) ≡ child (role' ppn) idx
  linked-made = rw (mem'-made, new-ppn x narrow, role'-kept ppn (omega (arith, inner))) role'-made

  linked-old :
      (p i : ℕ)
      → p ≢ x
      → 1 < depth (role p)
      → is_valid (mem' p i) ≡ true
      → (p ≡ ppn → i ≡ idx → ⊥)
      → role' (ppn_of (mem' p i)) ≡ child (role' p) i
  linked-old p i n h v o =
      let k = mem'-kept p i (omega (arith, h)) o in
      let v' : is_valid (t.mem p i) ≡ true = cc (k, v) in
      let down = depth-linked s p i h v' in
      rw (k, role'-depth p n, role'-kept (ppn_of (t.mem p i)) (omega (arith, down, h)))
        (s.linked p i h v')

  linked' :
      (p i : ℕ)
      → 1 < depth (role' p)
      → is_valid (mem' p i) ≡ true
      → role' (ppn_of (mem' p i)) ≡ child (role' p) i
  linked' p i h v = elim (Bool-cases (p == x)) [
    | inl b ↦
        let e = ==_eq p x b in
        let z : is_valid (mem' p i) ≡ false = rw (e, mem'-zero i) (unfold is_valid in refl) in
        cc (z, v)
    | inr b ↦
        let n : p ≢ x = ground arith in
        let h' : 1 < depth (role p) = rw (sym (role'-depth p n)) h in
        elim (Bool-cases ((p == ppn) && (i == idx))) [
          | inl e ↦
              let ep : p ≡ ppn = ground arith in
              let ei : i ≡ idx = ground arith in rw (ep, ei) linked-made
          | inr e ↦ linked-old p i n h' v λ ep ei. ground arith
        ]
  ]

  used' : (p : ℕ) → 0 < depth (role' p) → 0 < count p (x ∷ live)
  unfolding count
  used' p h = elim (Bool-cases (p == x)) [
    | inl b ↦ ground arith
    | inr b ↦
        let n : p ≢ x = ground arith in ground (arith, s.used p (rw (sym (role'-depth p n)) h))
  ]

  grow-IsTree : IsTree l (x ∷ live) role' (grow t ppn idx x a)
  unfolding grow mem'
  grow-IsTree = record {
    frames = frames';
    root = rw (role'-kept t.root_ppn (rw s.root (omega arith))) s.root;
    linked = linked';
    used = used';
  }

  pub grow-Grown :
      Grown l live role t (x ∷ live) (added role x (child (role ppn) idx)) (grow t ppn idx x a)
  unfolding grow mem' role'
  grow-Grown = record {
    tree = grow-IsTree;
    same_root = refl;
    kept_role = role'-kept;
    kept_entry = mem'-valid;
    kept_leaf = λ path p. grown-leaf path p;
  }

  pub grow-entry :
      (is_valid ((grow t ppn idx x a).mem ppn idx) ≡ true)
      × (ppn_of ((grow t ppn idx x a).mem ppn idx) ≡ x)
  unfolding mem'
  grow-entry = rw mem'-made (new-is_valid x, new-ppn x narrow)

  pub grow-role : added role x (child (role ppn) idx) x ≡ child (role ppn) idx
  unfolding role'
  grow-role = role'-made
