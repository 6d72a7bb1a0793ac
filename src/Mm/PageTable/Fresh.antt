-- ===== src/Mm/PageTable/Fresh.antt =====
-- `PageTable::new`.
use nimloth_os.Prelude.{
  ℕ, ◌+◌, ◌<◌, ◌≡◌, refl, inl, inr, Bool-cases, false, List, [], ◌∷◌, arith, ◌==◌, if◌then◌else◌,
  count, done,
}
use nimloth_os.Mm.Address.{indexes}
use nimloth_os.Mm.FrameAllocator.{StackFrameAllocator}
use nimloth_os.Mm.FrameAllocator.Ownership
use nimloth_os.Mm.Pte.{is_valid}
use nimloth_os.Mm.PageTable.{PageTable, Frames, zeroed, new}
use nimloth_os.Mm.PageTable.Tree.{Role, other, top, depth, IsTree, room}
use nimloth_os.Mm.PageTable.Create.{leaf-zero}
use nimloth_os.Mm.PageTable.Walk.{alloc-room, frame_alloc-granted}
use nimloth_os.Mm.PageTable.Mapping.{entry}

abbrev pub root_only : ℕ → ℕ → Role
root_only x p = if p == x then top else other

-- What `new` makes of an allocator with a free frame.
abbrev pub New : ℕ → List ℕ → Frames → StackFrameAllocator → PageTable → Type 0
New l live mem a t =
    (new mem a ≡ done t)
    × IsTree l (t.root_ppn ∷ live) (root_only t.root_ppn) t
    × (count t.root_ppn live ≡ 0)
    × ((vpn : ℕ) → entry t vpn ≡ 0)
    × (room a ≡ room t.allocator + 1)

abbrev made : Frames → ℕ → StackFrameAllocator → PageTable
made mem x a' = record { root_ppn = x; frames = x ∷ []; mem = zeroed mem x; allocator = a' }

zeroed-zero : (mem : Frames) (x i : ℕ) → zeroed mem x x i ≡ 0
zeroed-zero mem x i = ground arith

made-IsTree :
    (l : ℕ) (live : List ℕ) (mem : Frames) (x : ℕ) (a' : StackFrameAllocator)
    → Ownership.IsValid l (x ∷ live) a'
    → IsTree l (x ∷ live) (root_only x) (made mem x a')
unfolding is_valid count
made-IsTree l live mem x a' v = record {
  frames = v;
  root = ground arith;
  linked = λ p i h w. elim (Bool-cases (p == x)) [
    | inl b ↦ let z : is_valid (zeroed mem x p i) ≡ false = rw b refl in cc (z, w)
    | inr b ↦ let z : depth (root_only x p) ≡ 0 = rw b refl in absurd (omega (arith, h, z))
  ];
  used = λ p h. ground arith;
}

-- With a free frame, `new` succeeds: the root is a frame that nobody held, the table is a tree with
-- the root as its only table, and the entry of every page is 0, whatever the frame held before.
pub new_lem :
    (l : ℕ) (live : List ℕ) (mem : Frames) (a : StackFrameAllocator)
    → Ownership.IsValid l live a
    → 0 < room a
    → (t : PageTable) × New l live mem a t
unfolding new entry
new_lem l live mem a v h =
    let (x, a', e, r, g) = alloc-room l live a v h in
    let (hi, free, v') = g in
    (
      made mem x a',
      (
        rw (frame_alloc-granted mem a x a' e) refl,
        made-IsTree l live mem x a' v',
        free,
        λ vpn. leaf-zero (zeroed mem x) x (indexes vpn) (zeroed-zero mem x),
        r,
      ),
    )
