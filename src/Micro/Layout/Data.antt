-- ===== src/Micro/Layout/Data.antt =====
-- components/src/micro_fs/layout.rs: `DiskInode::read_at` and `DiskInode::write_at`, block by block.
pub mod Read
pub mod Separate
pub mod Write
pub mod Flat
use nimloth_os.Prelude.{
  ℕ, zero, suc, ◌+◌, ◌-◌, ◌*◌, ◌/◌, ◌%◌, ◌≡◌, min, ◌&&◌, List, [], ◌∷◌, ◌++◌, length, drop, get_or,
  ◌==◌, leb, ltb, if◌then◌else◌, Outcome, done, panic, assert, ◌>>=◌, ◌>>◌,
}
use nimloth_os.Micro.Layout.{Disk, DiskInode, block_id, block_sz}

-- The slice of a block from an offset on.
abbrev pub bytes_from : (ℕ → ℕ) → ℕ → ℕ → List ℕ
bytes_from f i zero = []
bytes_from f i (suc n) = f i ∷ bytes_from f (suc i) n

-- Where the round that begins at `start` ends.
abbrev pub block_end : ℕ → ℕ → ℕ
block_end start stop = min ((start / block_sz + 1) * block_sz) stop

-- The loop of `read_at`, in at most so many rounds: the bytes that it copies to the buffer.
unfoldable pub read_loop : ℕ → DiskInode → Disk → ℕ → ℕ → ℕ → Outcome (List ℕ)
unfolding block_id
read_loop zero n disk start_block start stop = panic
read_loop (suc rounds) n disk start_block start stop =
    let next = block_end start stop in
    block_id n disk start_block >>= λ b.
    let piece = bytes_from (disk b) (start % block_sz) (next - start) in
    if next == stop
    then done piece
    else (read_loop rounds n disk (suc start_block) next stop >>= λ rest. done (piece ++ rest))

-- The bytes for the front of a buffer of that length; `read_at` returns how many.
unfoldable pub read_at : DiskInode → Disk → ℕ → ℕ → Outcome (List ℕ)
unfolding read_loop
read_at n disk offset len =
    let stop = min (offset + len) n.size in
    if leb stop offset
    then done []
    else read_loop (stop - offset) n disk (offset / block_sz) offset stop

-- A block with bytes of the buffer from an offset on.
unfoldable pub copy_to : Disk → ℕ → ℕ → ℕ → List ℕ → Disk
copy_to disk b offset size bytes b' k =
    if (b == b') && (leb offset k && ltb k (offset + size))
    then get_or bytes (k - offset) 0
    else disk b' k

unfoldable pub write_loop : ℕ → DiskInode → Disk → ℕ → ℕ → ℕ → List ℕ → Outcome Disk
unfolding block_id copy_to
write_loop zero n disk start_block start stop bytes = panic
write_loop (suc rounds) n disk start_block start stop bytes =
    let next = block_end start stop in
    block_id n disk start_block >>= λ b.
    let disk' = copy_to disk b (start % block_sz) (next - start) bytes in
    if next == stop
    then done disk'
    else write_loop rounds n disk' (suc start_block) next stop (drop (next - start) bytes)

-- The disk afterwards, and how many bytes were written.
unfoldable pub write_at : DiskInode → Disk → ℕ → List ℕ → Outcome (Disk × ℕ)
unfolding write_loop
write_at n disk offset bytes =
    let stop = min (offset + length bytes) n.size in
    assert (leb offset stop)
    >> (write_loop (suc (stop - offset)) n disk (offset / block_sz) offset stop bytes >>= λ disk'.
        done (disk', stop - offset))
