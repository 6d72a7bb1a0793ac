-- ===== src/Fs/Descriptors.antt =====
-- The table of file descriptors: `alloc_fd` of os/src/process/process.rs and the system calls of
-- os/src/syscall/fs.rs that change the table. `F` stands for `Arc<dyn File>`; what `open_file` and
-- `make_pipe` give is an argument. A result `none` is -1.
pub mod Table
pub mod Lowest
use nimloth_os.Prelude.{
  ℕ, zero, suc, ◌+◌, ◌-◌, Bool, Option, none, some, List, [], ◌∷◌, ◌++◌, leb, if◌then◌else◌, length,
  set, ◌/◌, ◌%◌, ◌^◌, ◌==◌, ◌&&◌, Outcome, done, unwrap, ◌>>=◌,
}
use nimloth_os.Mm.PageTable.{PageTable}
use nimloth_os.Mm.UserMemory.{translated_refmut}

-- `OpenFlags::from_bits`: the flags are the bits 0, 1, 9 and 10.
unfoldable pub open_flags_from_bits : ℕ → Option ℕ
open_flags_from_bits bits =
    if (bits / 2 ^ 2 % 2 ^ 7 == 0) && (bits / 2 ^ 11 == 0) then some bits else none

module _ {F : Type 0} where
  -- `(0..len).find(|fd| fd_table[*fd].is_none())`
  unfoldable pub find_free : List (Option F) → Option ℕ
  find_free [] = none
  find_free (none ∷ table) = some 0
  find_free (some file ∷ table) = elim (find_free table) [ none ↦ none | some fd ↦ some (suc fd) ]

  unfoldable pub alloc_fd : List (Option F) → ℕ × List (Option F)
  unfolding find_free
  alloc_fd table = elim (find_free table) [
    | some fd ↦ (fd, table)
    | none ↦ let table' = table ++ (none ∷ []) in (length table' - 1, table')
  ]

  -- `alloc_fd` and the store of a file at the new descriptor.
  unfoldable pub install : List (Option F) → F → ℕ × List (Option F)
  unfolding alloc_fd
  install table file = let (fd, table') = alloc_fd table in (fd, set table' fd (some file))

  -- `fd_table[fd]`, none also out of range, where the callers return -1 before they look.
  abbrev pub file_at : List (Option F) → ℕ → Option F
  file_at [] fd = none
  file_at (file ∷ table) zero = file
  file_at (file ∷ table) (suc fd) = file_at table fd

  unfoldable pub opened : List (Option F) → Option F → Option ℕ × List (Option F)
  unfolding install
  opened table none = (none, table)
  opened table (some inode) = let (fd, table') = install table inode in (some fd, table')

  -- `sys_open`, for what `open_file` gives for the path and each set of flags.
  unfoldable pub sys_open :
      List (Option F) → (ℕ → Option F) → ℕ → Outcome (Option ℕ × List (Option F))
  unfolding opened open_flags_from_bits
  sys_open table open_file bits = do
    flags ← unwrap (open_flags_from_bits bits)
    done (opened table (open_file flags))

  unfoldable pub sys_close : List (Option F) → ℕ → Option ℕ × List (Option F)
  sys_close table fd = if leb (length table) fd then (none, table) else elim (file_at table fd) [
    | none ↦ (none, table)
    | some file ↦ (some 0, set table fd none)
  ]

  unfoldable pub sys_dup : List (Option F) → ℕ → Option ℕ × List (Option F)
  unfolding install
  sys_dup table fd = if leb (length table) fd then (none, table) else elim (file_at table fd) [
    | none ↦ (none, table)
    | some file ↦ let (new_fd, table') = install table file in (some new_fd, table')
  ]

  -- The two descriptors of `sys_pipe`.
  unfoldable pub pipe_fds : List (Option F) → F → F → (ℕ × ℕ) × List (Option F)
  unfolding install
  pipe_fds table pipe_read pipe_write =
      let (read_fd, table1) = install table pipe_read in
      let (write_fd, table2) = install table1 pipe_write in ((read_fd, write_fd), table2)

  -- `sys_pipe` in the address space of the page table: the physical addresses that it writes, each
  -- with its descriptor, and the table of descriptors. It returns 0, or panics.
  unfoldable pub sys_pipe :
      PageTable → List (Option F) → F → F → ℕ → Outcome (List (ℕ × ℕ) × List (Option F))
  unfolding pipe_fds
  sys_pipe t table pipe_read pipe_write pipe =
      let (fds, table') = pipe_fds table pipe_read pipe_write in
      do
        first ← translated_refmut t pipe
        second ← translated_refmut t ((pipe + 8) % 2 ^ 64)
        done ((first, fds.0) ∷ (second, fds.1) ∷ [], table')

  -- The copy of the table that `fork` makes.
  unfoldable pub fork_table : List (Option F) → List (Option F)
  fork_table [] = []
  fork_table (some file ∷ table) = some file ∷ fork_table table
  fork_table (none ∷ table) = none ∷ fork_table table
