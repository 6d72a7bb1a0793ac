-- ===== src/Tests/Pipes.antt =====
-- A pipe with two bytes in its buffer.
use nimloth_os.Prelude.{◌+◌, ◌≡◌, ◌≢◌, refl, some, [], ◌∷◌, ◌++◌, arith, length, replicate}
use nimloth_os.Fs.Pipe.{
  PipeRingBuffer, normal, ring_buffer_size, read_byte, write_byte, available_read, available_write,
  Reading, Writing, write_round,
}
use nimloth_os.Fs.Pipe.Queue.{IsValid, contents, cells_from, ring_is_queue}
use nimloth_os.Fs.Pipe.Channel.{Channel, here, next, state_of, writes, opened, traffic, fifo}

-- 5 in the last cell and 6 in the first
abbrev two_bytes : PipeRingBuffer
two_bytes = record {
  arr = (6 ∷ replicate 30 0) ++ (5 ∷ []);
  head = 31;
  tail = 1;
  status = normal;
  write_end = some 1;
}

two_bytes-IsValid : IsValid two_bytes
two_bytes-IsValid = omega arith

contents_test : contents two_bytes ≡ 5 ∷ 6 ∷ []
unfolding cells_from available_read
contents_test = refl

ring_is_queue_example :
    (available_read two_bytes ≡ length (contents two_bytes))
    × (available_read two_bytes + available_write two_bytes ≡ ring_buffer_size)
    × (available_read two_bytes ≢ 0
        → (contents two_bytes ≡ (read_byte two_bytes).0 ∷ contents (read_byte two_bytes).1)
          × IsValid (read_byte two_bytes).1)
    × (available_write two_bytes ≢ 0
        → (contents (write_byte two_bytes 7) ≡ contents two_bytes ++ (7 ∷ []))
          × IsValid (write_byte two_bytes 7))
ring_is_queue_example = ring_is_queue two_bytes 7 two_bytes-IsValid

abbrev wants_three : Reading
wants_three = record { ring = two_bytes; left = 3; already_read = 0; out = [] }

abbrev writes_two : Writing
writes_two = record { ring = two_bytes; rest = 7 ∷ 8 ∷ []; already_write = 0 }

-- A writer's round on a fresh pipe.
abbrev first_write : Writing
first_write = record { ring = (opened (1 ∷ 2 ∷ [])).ring; rest = 1 ∷ 2 ∷ []; already_write = 0 }

abbrev written : Channel
written = record {
  delivered = [];
  ring = (state_of (write_round 2 first_write)).ring;
  rest = (state_of (write_round 2 first_write)).rest ++ [];
}

fifo_example : traffic written ≡ 1 ∷ 2 ∷ []
fifo_example =
    fifo (1 ∷ 2 ∷ [])
      (next here (writes {r = write_round 2 first_write} 0 (1 ∷ 2 ∷ []) [] refl refl))
