-- ===== src/Mm/PageTable/Tree.antt =====
-- The shape of a page table: which frame is the table of which prefix of indexes.
use nimloth_os.Prelude.{
  ℕ, ◌+◌, ◌-◌, ◌<◌, ◌≡◌, refl, true, List, [], ◌∷◌, arith, if◌then◌else◌, length, count,
}
use nimloth_os.Mm.FrameAllocator.{StackFrameAllocator}
use nimloth_os.Mm.FrameAllocator.Ownership
use nimloth_os.Mm.Pte.{ppn_of, is_valid}
use nimloth_os.Mm.PageTable.{PageTable, Frames}

-- `other` is a frame that is no table; `mid i` is the table of the first index i, and `low i j` that
-- of the first two.
pub data Role : Type 0 where
  other top : Role
  mid : ℕ → Role
  low : ℕ → ℕ → Role

abbrev pub child : Role → ℕ → Role
child top i = mid i
child (mid i) j = low i j
child _ _ = other

-- how many indexes a walk from such a table still takes
abbrev pub depth : Role → ℕ
depth other = 0
depth top = 3
depth (mid _) = 2
depth (low _ _) = 1

-- `l` is the first frame of the allocator and `live` the frames in use.
pub record IsTree (l : ℕ) (live : List ℕ) (role : ℕ → Role) (t : PageTable) : Type 0 where
  pub frames : Ownership.IsValid l live t.allocator
  pub root : role t.root_ppn ≡ top
  pub linked :
      (p i : ℕ)
      → 1 < depth (role p)
      → is_valid (t.mem p i) ≡ true
      → role (ppn_of (t.mem p i)) ≡ child (role p) i
  pub used : (p : ℕ) → 0 < depth (role p) → 0 < count p live

-- The indexes from the root to an entry of a table.
abbrev pub full : Role → List ℕ → List ℕ
full other path = path
full top path = path
full (mid i) path = i ∷ path
full (low i j) path = i ∷ j ∷ path

pub full-child :
    (r : Role) (i : ℕ) (path : List ℕ) → 1 < depth r → full (child r i) path ≡ full r (i ∷ path)
full-child other i path h = absurd (omega (arith, h))
full-child top i path h = refl
full-child (mid a) i path h = refl
full-child (low a b) i path h = absurd (omega (arith, h))

pub depth-child : (r : Role) (i : ℕ) → 1 < depth r → depth (child r i) + 1 ≡ depth r
depth-child other i h = absurd (omega (arith, h))
depth-child top i h = refl
depth-child (mid a) i h = refl
depth-child (low a b) i h = absurd (omega (arith, h))

pub full-last : (r q : Role) (i k : ℕ) → r ≡ q → i ≡ k → full r (i ∷ []) ≡ full q (k ∷ [])
full-last r q i k e d = cc (e, d)

-- The entry that a walk finds, 0 where a table is missing on the way.
unfoldable pub leaf : Frames → ℕ → List ℕ → ℕ
leaf mem ppn [] = 0
leaf mem ppn (idx ∷ []) = mem ppn idx
leaf mem ppn (idx ∷ next ∷ idxs) =
    let rest = leaf mem (ppn_of (mem ppn idx)) (next ∷ idxs) in
    if is_valid (mem ppn idx) then rest else 0

-- How many frames the allocator can still grant.
abbrev pub room : StackFrameAllocator → ℕ
room a = length a.recycled + (a.end - a.current)

pub depth-linked :
    {l : ℕ} {live : List ℕ} {role : ℕ → Role} {t : PageTable} (s : IsTree l live role t) (p i : ℕ)
    → 1 < depth (role p)
    → is_valid (t.mem p i) ≡ true
    → depth (role (ppn_of (t.mem p i))) + 1 ≡ depth (role p)
depth-linked {role = role} {t = t} s p i h v = rw (s.linked p i h v) (depth-child (role p) i h)
