-- ===== src/Tests/Paging.antt =====
-- Page tables.
use nimloth_os.Prelude.{
  ℕ, ◌+◌, ◌*◌, ◌^◌, ◌≡◌, refl, true, false, some, [], ◌∷◌, arith, ◌==◌, if◌then◌else◌, done, panic,
  count,
}
use nimloth_os.Mm.Address.{indexes}
use nimloth_os.Mm.FrameAllocator.{StackFrameAllocator}
use nimloth_os.Mm.FrameAllocator.Ownership
use nimloth_os.Mm.Pte
use nimloth_os.Mm.Pte.{is_valid, ppn_of, flags_of, readable, writable, executable, with_v}
use nimloth_os.Mm.PageTable.{PageTable, Frames, put, map, unmap, translate}
use nimloth_os.Mm.PageTable.Tree.{Role, other, top, mid, low, IsTree}
use nimloth_os.Mm.PageTable.Mapping.{entry, Written, map_lem, unmap_lem}
use nimloth_os.Mm.UserMemory.{Piece, translated_byte_buffer}
use nimloth_os.Mm.UserMemory.Pieces.{Mapped, addresses, user_bytes, translated_byte_buffer_lem}
use nimloth_os.Prelude.{List}
use nimloth_os.Mm.PageTable.{from_token}

-- Frames 10 to 12 are the tables of page 5, which is mapped to frame 77.
abbrev pub tables : Frames
tables = put (put (put (λ _ _. 0) 10 0 (Pte.new 11 1)) 11 0 (Pte.new 12 1)) 12 5 (Pte.new 77 15)

abbrev pub table_roles : ℕ → Role
table_roles p =
    if p == 10 then top else if p == 11 then mid 0 else if p == 12 then low 0 0 else other

abbrev pub mapped : PageTable
mapped = record {
  root_ppn = 10;
  frames = 12 ∷ 11 ∷ 10 ∷ [];
  mem = tables;
  allocator = record { current = 13; end = 20; recycled = [] };
}

pub mapped-IsTree : IsTree 10 (10 ∷ 11 ∷ 12 ∷ []) table_roles mapped
unfolding Pte.new is_valid ppn_of count
mapped-IsTree = record {
  frames = record {
    started = omega arith;
    within = omega arith;
    width = omega arith;
    once = λ x. ground arith;
  };
  root = refl;
  linked = λ p i h v. ground arith;
  used = λ p h. ground arith;
}

unmap_lem_example :
    (is_valid (entry mapped 5) ≡ true
      → (t' : PageTable) × (unmap mapped 5 ≡ done t') × Written 10 mapped 5 0 t')
    × (is_valid (entry mapped 5) ≡ false → unmap mapped 5 ≡ panic)
unmap_lem_example =
    unmap_lem 10 (10 ∷ 11 ∷ 12 ∷ []) table_roles mapped 5 mapped-IsTree (omega arith)

map_lem_example :
    (is_valid (entry mapped (2 ^ 18)) ≡ false
      → (t' : PageTable) × (map mapped (2 ^ 18) 78 6 ≡ done t')
        × Written 10 mapped (2 ^ 18) (Pte.new 78 (with_v 6)) t')
    × (is_valid (entry mapped (2 ^ 18)) ≡ true → map mapped (2 ^ 18) 78 6 ≡ panic)
map_lem_example =
    map_lem 10 (10 ∷ 11 ∷ 12 ∷ []) table_roles mapped (2 ^ 18) 78 6 mapped-IsTree (omega arith)
      (omega arith)

abbrev fresh_frames : StackFrameAllocator
fresh_frames = record { current = 10; end = 20; recycled = [] }

fresh_frames-IsValid : Ownership.IsValid 10 [] fresh_frames
unfolding count
fresh_frames-IsValid = record {
  started = omega arith;
  within = omega arith;
  width = omega arith;
  once = λ x. ground arith;
}

abbrev frames_of : StackFrameAllocator
frames_of = record { current = 13; end = 20; recycled = [] }

page_five-Mapped :
    Mapped
      (from_token tables frames_of (8 * 2 ^ 60 + 10))
      (λ _. Pte.new 77 15)
      (5 * 4096 + 4000)
      (5 * 4096 + 4000 + 50)
page_five-Mapped vpn a b =
    let e : vpn ≡ 5 = omega (arith, a, b) in
    rw e (unfold translate from_token indexes Pte.new is_valid ppn_of in refl)

translated_byte_buffer_lem_example :
    (ps : List Piece) × (translated_byte_buffer 3 tables frames_of
        (8 * 2 ^ 60 + 10)
        (5 * 4096 + 4000)
        50
      ≡ done (some ps))
    × (addresses ps ≡ user_bytes (λ _. Pte.new 77 15) 50 (5 * 4096 + 4000))
translated_byte_buffer_lem_example =
    translated_byte_buffer_lem 3 tables frames_of (8 * 2 ^ 60 + 10) (5 * 4096 + 4000) 50
      (λ _. Pte.new 77 15) (omega arith) page_five-Mapped (omega arith)
