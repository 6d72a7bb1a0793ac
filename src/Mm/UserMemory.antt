-- ===== src/Mm/UserMemory.antt =====
-- os/src/mm/page_table.rs: `translated_byte_buffer`, the pieces of physical memory that hold a range of
-- user memory. A piece `&mut bytes[from..to]` of a frame is its frame and the two offsets.
pub mod Pieces
use nimloth_os.Prelude.{
  ℕ, zero, suc, ◌+◌, ◌-◌, ◌%◌, ◌^◌, min, Option, none, some, List, [], ◌∷◌, ◌==◌, ltb,
  if◌then◌else◌, Outcome, done, panic, unwrap, assert, leb, ◌>>=◌, ◌>>◌,
}
use nimloth_os.Mm.Address.{
  PhysAddr, page_size, step, floor, page_offset, virt_addr_from, usize_from_virt_addr,
  addr_from_page_num,
}
use nimloth_os.Mm.Pte.{ppn_of}
use nimloth_os.Mm.PageTable.{PageTable, translate, translate_va, from_token, Frames}
use nimloth_os.Mm.FrameAllocator.{StackFrameAllocator}

pub record Piece : Type 0 where
  pub frame : ℕ
  pub from : ℕ
  pub to : ℕ

-- The end of the page of `start`, or `end` where that comes first.
unfoldable pub piece_end : ℕ → ℕ → ℕ
unfolding virt_addr_from floor addr_from_page_num
piece_end start end =
    min (addr_from_page_num (step (floor (virt_addr_from start)))) (virt_addr_from end)

unfoldable pub piece : ℕ → ℕ → ℕ → Piece
unfolding virt_addr_from page_offset piece_end
piece ppn start end = record {
  frame = ppn;
  from = page_offset (virt_addr_from start);
  to =
      if page_offset (piece_end start end) == 0
      then page_size
      else page_offset (piece_end start end);
}

abbrev pub with_piece : Piece → Option (List Piece) → Option (List Piece)
with_piece p none = none
with_piece p (some ps) = some (p ∷ ps)

-- The loop, `none` if the fuel runs out first. A slice whose start is behind its end panics.
unfoldable pub piece_loop : ℕ → PageTable → ℕ → ℕ → Outcome (Option (List Piece))
unfolding virt_addr_from floor usize_from_virt_addr piece_end piece
piece_loop zero t start end = done none
piece_loop (suc fuel) t start end =
    let next = piece_loop fuel t (usize_from_virt_addr (piece_end start end)) end in
    if ltb start end
    then (do
      pte ← unwrap (translate t (floor (virt_addr_from start)))
      let p = piece (ppn_of pte) start end
      assert (leb p.from p.to)
      rest ← next
      done (with_piece p rest))
    else done (some [])

unfoldable pub translated_byte_buffer :
    ℕ → Frames → StackFrameAllocator → ℕ → ℕ → ℕ → Outcome (Option (List Piece))
unfolding piece_loop from_token
translated_byte_buffer fuel mem allocator token ptr len =
    piece_loop fuel (from_token mem allocator token) ptr ((ptr + len) % 2 ^ 64)

-- `translated_refmut` and `translated_ref`: the physical address that the reference names.
unfoldable pub translated_refmut : PageTable → ℕ → Outcome PhysAddr
unfolding translate_va
translated_refmut t ptr = unwrap (translate_va t (virt_addr_from ptr))
