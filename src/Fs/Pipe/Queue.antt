-- ===== src/Fs/Pipe/Queue.antt =====
-- The ring buffer is a queue of at most `ring_buffer_size` bytes.
use nimloth_os.Prelude.{
  ℕ, zero, suc, ◌+◌, ◌-◌, ◌%◌, ◌<◌, ◌≡◌, ◌≢◌, refl, sym, ap, ap₂, ◌∙◌, List, [], ◌∷◌, ◌++◌, arith,
  length, get_or, set, length-set, get_or-set_self, get_or-set_ne,
}
use nimloth_os.Fs.Pipe.{
  PipeRingBuffer, RingBufferStatus, normal, ring_buffer_size, new, read_byte, write_byte,
  available_read, available_write,
}

-- The three states of the two indices.
abbrev pub Agrees : RingBufferStatus → ℕ → ℕ → Type 0
Agrees normal head tail = head ≢ tail
Agrees _ head tail = head ≡ tail

pub record IsValid (r : PipeRingBuffer) : Type 0 where
  pub cells : length r.arr ≡ ring_buffer_size
  pub head_in : r.head < ring_buffer_size
  pub tail_in : r.tail < ring_buffer_size
  pub agrees : Agrees r.status r.head r.tail

-- `n` bytes from index `i` on, round the end of the array
unfoldable pub cells_from : List ℕ → ℕ → ℕ → List ℕ
cells_from arr i zero = []
cells_from arr i (suc n) = get_or arr i 0 ∷ cells_from arr ((i + 1) % ring_buffer_size) n

abbrev pub contents : PipeRingBuffer → List ℕ
contents r = cells_from r.arr r.head (available_read r)

length-cells_from : (arr : List ℕ) (i n : ℕ) → length (cells_from arr i n) ≡ n
unfolding cells_from
length-cells_from arr i zero = refl
length-cells_from arr i (suc n) = ap suc (length-cells_from arr ((i + 1) % ring_buffer_size) n)

pub length-contents : (r : PipeRingBuffer) → length (contents r) ≡ available_read r
length-contents r = length-cells_from r.arr r.head (available_read r)

pub new-IsValid : IsValid new
new-IsValid = omega arith

cells_from-set :
    (arr : List ℕ) (i n j b : ℕ)
    → length arr ≡ ring_buffer_size
    → i < ring_buffer_size
    → n < ring_buffer_size
    → j ≡ (i + n) % ring_buffer_size
    → cells_from (set arr j b) i (suc n) ≡ cells_from arr i n ++ (b ∷ [])
unfolding cells_from
cells_from-set arr i zero j b len hi hn e =
    let same : j ≡ i = omega arith in rw (same, get_or-set_self arr i b 0 (omega arith)) refl
cells_from-set arr i (suc n) j b len hi hn e = ap₂ ◌∷◌ (get_or-set_ne arr j i b 0 (omega arith)) (
    cells_from-set arr ((i + 1) % ring_buffer_size) n j b len (omega arith) (omega arith)
      (omega arith))

-- What is to be read and what may be written make up the size of the buffer.
pub available_sum :
    (r : PipeRingBuffer) → IsValid r → available_read r + available_write r ≡ ring_buffer_size
unfolding available_read available_write
available_sum r v = ground arith

pub read-available :
    (r : PipeRingBuffer)
    → IsValid r
    → available_read r ≢ 0
    → available_read (read_byte r).1 + 1 ≡ available_read r
unfolding available_read read_byte
read-available r v h = ground arith

pub write-available :
    (r : PipeRingBuffer) (b : ℕ)
    → IsValid r
    → available_write r ≢ 0
    → available_read (write_byte r b) ≡ available_read r + 1
unfolding available_read available_write write_byte
write-available r b v h = ground arith

pub read-IsValid : (r : PipeRingBuffer) → IsValid r → available_read r ≢ 0 → IsValid (read_byte r).1
unfolding available_read read_byte
read-IsValid r v h = ground arith

pub write-IsValid :
    (r : PipeRingBuffer) (b : ℕ) → IsValid r → available_write r ≢ 0 → IsValid (write_byte r b)
unfolding available_read available_write write_byte
write-IsValid r b v h = ground (arith, length-set r.arr r.tail b)

cells_from-suc :
    (arr : List ℕ) (i n : ℕ)
    → n ≢ 0
    → cells_from arr i n ≡ get_or arr i 0 ∷ cells_from arr ((i + 1) % ring_buffer_size) (n - 1)
cells_from-suc arr i zero h = absurd (h refl)
cells_from-suc arr i (suc n) h =
    unfold cells_from in
    ap (λ (k : ℕ). get_or arr i 0 ∷ cells_from arr ((i + 1) % ring_buffer_size) k) (omega arith)

contents-read :
    (r : PipeRingBuffer)
    → IsValid r
    → available_read r ≢ 0
    → contents r ≡ (read_byte r).0 ∷ contents (read_byte r).1
contents-read r v h =
    let less : available_read r - 1 ≡ available_read (read_byte r).1 =
      omega (arith, read-available r v h) in
    cells_from-suc r.arr r.head (available_read r) h
    ∙ ap (λ (n : ℕ). get_or r.arr r.head 0 ∷ cells_from r.arr ((r.head + 1) % ring_buffer_size) n)
        less
    ∙ unfold read_byte in refl

tail-eq : (r : PipeRingBuffer) → IsValid r → r.tail ≡ (r.head + available_read r) % ring_buffer_size
unfolding available_read
tail-eq r v = ground arith

contents-write :
    (r : PipeRingBuffer) (b : ℕ)
    → IsValid r
    → available_write r ≢ 0
    → contents (write_byte r b) ≡ contents r ++ (b ∷ [])
contents-write r b v h =
    let room : available_read r < ring_buffer_size = omega (arith, available_sum r v) in
    let longer : available_read (write_byte r b) ≡ suc (available_read r) =
      omega (arith, write-available r b v h) in
    let cells : cells_from (write_byte r b).arr (write_byte r b).head (suc (available_read r))
        ≡ contents r ++ (b ∷ []) =
      unfold write_byte in
      cells_from-set r.arr r.head (available_read r) r.tail b v.cells v.head_in room
        (tail-eq r v) in
    rw longer cells

-- A valid ring buffer is a queue: `read_byte` on a buffer with something to read takes the oldest
-- byte, `write_byte` on one with room appends a byte, both keep it valid, and `available_read` and
-- `available_write` are the number of queued bytes and the room that is left of 32 cells.
pub ring_is_queue :
    (r : PipeRingBuffer) (b : ℕ)
    → IsValid r
    → (available_read r ≡ length (contents r))
      × (available_read r + available_write r ≡ ring_buffer_size)
      × (available_read r ≢ 0
          → (contents r ≡ (read_byte r).0 ∷ contents (read_byte r).1) × IsValid (read_byte r).1)
      × (available_write r ≢ 0
          → (contents (write_byte r b) ≡ contents r ++ (b ∷ [])) × IsValid (write_byte r b))
ring_is_queue r b v = (
  sym (length-contents r),
  available_sum r v,
  λ h. (contents-read r v h, read-IsValid r v h),
  λ h. (contents-write r b v h, write-IsValid r b v h),
)
