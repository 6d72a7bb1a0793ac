-- ===== src/Fs/Pipe.antt =====
-- os/src/fs/pipe.rs: the ring buffer of a pipe, and the two blocking loops over it.
pub mod Queue
pub mod Transfer
pub mod Feeding
pub mod Channel
use nimloth_os.Prelude.{
  ℕ, zero, suc, ◌+◌, ◌-◌, ◌%◌, Bool, true, false, Option, none, some, List, [], ◌∷◌, ◌++◌, ◌==◌,
  ltb, if◌then◌else◌, length, get_or, set, replicate, Outcome, done, panic, unwrap, ◌>>=◌,
}

abbrev pub ring_buffer_size : ℕ
ring_buffer_size = 32

pub data RingBufferStatus : Type 0 where
  full empty normal : RingBufferStatus

-- `write_end` is a weak pointer: it is modelled by the number of strong references to the write end,
-- which can be upgraded exactly while there is one. The indices stay inside the array (see `Queue`).
pub record PipeRingBuffer : Type 0 where
  pub arr : List ℕ
  pub head : ℕ
  pub tail : ℕ
  pub status : RingBufferStatus
  pub write_end : Option ℕ

abbrev pub new : PipeRingBuffer
new = record {
  arr = replicate ring_buffer_size 0;
  head = 0;
  tail = 0;
  status = empty;
  write_end = none;
}

unfoldable pub set_write_end : PipeRingBuffer → ℕ → PipeRingBuffer
set_write_end r strong = record r { write_end = some strong }

unfoldable pub read_byte : PipeRingBuffer → ℕ × PipeRingBuffer
read_byte r =
    let head = (r.head + 1) % ring_buffer_size in
    (
      get_or r.arr r.head 0,
      record r { head = head; status = if head == r.tail then empty else normal },
    )

unfoldable pub write_byte : PipeRingBuffer → ℕ → PipeRingBuffer
write_byte r byte =
    let tail = (r.tail + 1) % ring_buffer_size in
    record r {
      arr = set r.arr r.tail byte;
      tail = tail;
      status = if tail == r.head then full else normal;
    }

unfoldable pub available_read : PipeRingBuffer → ℕ
available_read r = elim r.status [
  | empty ↦ 0
  | _ ↦ if ltb r.head r.tail then r.tail - r.head else r.tail + ring_buffer_size - r.head
]

unfoldable pub available_write : PipeRingBuffer → ℕ
unfolding available_read
available_write r = elim r.status [ full ↦ 0 | _ ↦ ring_buffer_size - available_read r ]

unfoldable pub all_write_ends_closed : PipeRingBuffer → Outcome Bool
all_write_ends_closed r = do strong ← unwrap r.write_end; done (strong == 0)

-- The variables of `read`: the buffer, how many bytes the iterator still has room for, the count of
-- bytes read, and the bytes that went to the user's memory, in order.
pub record Reading : Type 0 where
  pub ring : PipeRingBuffer
  pub left : ℕ
  pub already_read : ℕ
  pub out : List ℕ

-- How far a round of a loop goes: `return`, `suspend_current_and_run_next` and then `continue`, or on
-- to the next round.
pub data Progress {ℓ} (S : Type ℓ) : Type ℓ where
  returned : ℕ → S → Progress S
  suspended : S → Progress S
  more : S → Progress S

abbrev pub take_byte : Reading → Reading
take_byte s =
    let (byte, ring) = read_byte s.ring in
    record {
      ring = ring;
      left = s.left - 1;
      already_read = s.already_read + 1;
      out = s.out ++ (byte ∷ []);
    }

-- `for _ in 0..loop_read` of `read`, for a call that wants `want` bytes.
unfoldable pub read_for : ℕ → ℕ → Reading → Progress Reading
unfolding read_byte
read_for want zero s = more s
read_for want (suc n) s =
    let s' = take_byte s in
    let rest = read_for want n s' in
    let ended = if s'.already_read == want then returned want s' else rest in
    if s.left == 0 then returned s.already_read s else ended

abbrev pub nothing_to_read : Bool → Reading → Progress Reading
nothing_to_read true s = returned s.already_read s
nothing_to_read false s = suspended s

unfoldable pub read_round : ℕ → Reading → Outcome (Progress Reading)
unfolding available_read all_write_ends_closed read_for
read_round want s =
    let loop_read = available_read s.ring in
    if loop_read == 0
    then (do closed ← all_write_ends_closed s.ring; done (nothing_to_read closed s))
    else done (read_for want loop_read s)

-- The variables of `write`: `rest` holds the user's bytes that the iterator has not yet given.
pub record Writing : Type 0 where
  pub ring : PipeRingBuffer
  pub rest : List ℕ
  pub already_write : ℕ

abbrev pub put_byte : Writing → ℕ → List ℕ → Writing
put_byte s byte rest = record {
  ring = write_byte s.ring byte;
  rest = rest;
  already_write = s.already_write + 1;
}

-- `for _ in 0..loop_write` of `write`.
unfoldable pub write_for : ℕ → ℕ → Writing → List ℕ → Progress Writing
unfolding write_byte
write_for want zero s bytes = more s
write_for want (suc n) s [] = returned s.already_write s
write_for want (suc n) s (byte ∷ bytes) =
    let s' = put_byte s byte bytes in
    let rest = write_for want n s' bytes in
    if s'.already_write == want then returned want s' else rest

unfoldable pub write_round : ℕ → Writing → Progress Writing
unfolding available_write write_for
write_round want s =
    let loop_write = available_write s.ring in
    if loop_write == 0 then suspended s else write_for want loop_write s s.rest
