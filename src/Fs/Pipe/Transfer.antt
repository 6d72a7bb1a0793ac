-- ===== src/Fs/Pipe/Transfer.antt =====
-- What the loops of `read` and `write` move, one run until the call returns or gives up the processor.
use nimloth_os.Prelude.{
  ℕ, zero, suc, ◌+◌, ◌≤◌, ◌<◌, ◌≡◌, ◌≢◌, ◌⊎◌, refl, sym, ap, ◌∙◌, inl, inr, Bool-cases, true, false,
  Option-cases, none, some, [], ◌∷◌, ◌++◌, append_assoc, arith, ◌==◌, ==_eq, length, length-append,
  Outcome, done, panic,
}
use nimloth_os.Fs.Pipe.{
  PipeRingBuffer, read_byte, available_read, all_write_ends_closed, Reading, Progress, returned,
  suspended, more, take_byte, read_for, read_round,
}
use nimloth_os.Fs.Pipe.Queue.{
  IsValid, contents, cells_from, length-contents, ring_is_queue, read-available,
}

-- `t` is reached from `s` by reading: no byte is lost, repeated or reordered.
pub record Read (s t : Reading) : Type 0 where
  pub valid : IsValid t.ring
  pub bytes : t.out ++ contents t.ring ≡ s.out ++ contents s.ring
  pub counted : t.left + t.already_read ≡ s.left + s.already_read
  pub progress : length t.out + s.already_read ≡ length s.out + t.already_read

Read-refl : (s : Reading) → IsValid s.ring → Read s s
Read-refl s v = record { valid = v; bytes = refl; counted = refl; progress = refl }

Read-trans : {s t u : Reading} → Read s t → Read t u → Read s u
Read-trans a b = record {
  valid = b.valid;
  bytes = b.bytes ∙ a.bytes;
  counted = b.counted ∙ a.counted;
  progress = omega (arith, a.progress, b.progress);
}

take_byte-Read :
    (s : Reading) → IsValid s.ring → available_read s.ring ≢ 0 → s.left ≢ 0 → Read s (take_byte s)
take_byte-Read s v h l =
    let (_, _, taken, _) = ring_is_queue s.ring 0 v in
    record {
      valid = (taken h).1;
      bytes = rw (append_assoc, (taken h).0) refl;
      counted = omega arith;
      progress = omega (arith, length-append {0} s.out ((read_byte s.ring).0 ∷ []));
    }

-- How `read_for` ends after at most n bytes.
abbrev ReadEnd : ℕ → Reading → Progress Reading → Type 0
ReadEnd n s (returned k t) = Read s t × (k ≡ t.already_read) × (t.left ≡ 0)
ReadEnd n s (suspended t) = ⊥
ReadEnd n s (more t) = Read s t × (available_read t.ring + n ≡ available_read s.ring) × (0 < t.left)

ReadEnd-after :
    (n : ℕ) {s t : Reading} (r : Progress Reading)
    → Read s t
    → available_read t.ring + 1 ≡ available_read s.ring
    → ReadEnd n t r
    → ReadEnd (suc n) s r
ReadEnd-after n (returned k u) a h (b, e, f) = (Read-trans a b, e, f)
ReadEnd-after n (suspended u) a h b = b
ReadEnd-after n (more u) a h (b, e, f) = (Read-trans a b, omega arith, f)

read_for-end :
    (want n : ℕ) (s : Reading)
    → IsValid s.ring
    → n ≤ available_read s.ring
    → s.left + s.already_read ≡ want
    → (n ≡ 0 → 0 < s.left)
    → ReadEnd n s (read_for want n s)
unfolding read_for
read_for-end want zero s v h e l = (Read-refl s v, omega arith, l refl)
read_for-end want (suc n) s v h e l = elim (Bool-cases (s.left == 0)) [
  | inl none_left ↦ rw none_left (Read-refl s v, refl, ==_eq s.left 0 none_left)
  | inr some_left ↦
      let left : s.left ≢ 0 = ground (arith, some_left) in
      let some_bytes : available_read s.ring ≢ 0 = omega arith in
      let step = take_byte-Read s v some_bytes left in
      let fewer = read-available s.ring v some_bytes in
      elim (Bool-cases (s.already_read + 1 == want)) [
        | inl full ↦
            rw (some_left, full)
              (step, sym (==_eq (s.already_read + 1) want full), ground (arith, full))
        | inr on ↦
            rw (some_left, on)
              (ReadEnd-after n (read_for want n (take_byte s)) step fewer (
                read_for-end want n (take_byte s) step.valid (omega (arith, fewer)) (omega arith)
                  (ground (arith, on))))
      ]
]

-- How a round of `read` may end.
abbrev pub ReadRound : ℕ → Reading → Outcome (Progress Reading) → Type 0
ReadRound want s panic = s.ring.write_end ≡ none
ReadRound want s (done (returned k t)) =
    Read s t
    × (k ≡ t.already_read)
    × ((t.left ≡ 0) ⊎ ((contents t.ring ≡ []) × (s.ring.write_end ≡ some 0)))
ReadRound want s (done (suspended t)) =
    (t ≡ s) × (contents t.ring ≡ []) × (s.ring.write_end ≢ some 0)
ReadRound want s (done (more t)) =
    Read s t × (contents t.ring ≡ []) × (0 < t.left) × (length s.out < length t.out)

contents-nil : (r : PipeRingBuffer) → available_read r ≡ 0 → contents r ≡ []
unfolding cells_from
contents-nil r e = ap (cells_from r.arr r.head) e

ReadRound-end :
    (want : ℕ) (s : Reading) (r : Progress Reading)
    → available_read s.ring ≢ 0
    → ReadEnd (available_read s.ring) s r
    → ReadRound want s (done r)
ReadRound-end want s (returned k t) h (a, e, l) = (a, e, inl l)
ReadRound-end want s (suspended t) h b = absurd b
ReadRound-end want s (more t) h (a, e, l) =
    let drained : contents t.ring ≡ [] = contents-nil t.ring (omega arith) in
    let total : length t.out + length (contents t.ring) ≡ length s.out + length (contents s.ring) =
      sym (length-append t.out (contents t.ring))
      ∙ ap length a.bytes
      ∙ length-append s.out (contents s.ring) in
    (a, drained, l, omega (arith, total, ap length drained, length-contents s.ring))

module _ (want : ℕ) (s : Reading) where
  round-closed :
      (available_read s.ring == 0) ≡ true
      → s.ring.write_end ≡ some 0
      → read_round want s ≡ done (returned s.already_read s)
  unfolding read_round all_write_ends_closed
  round-closed z w = ground (arith, z, w)

  round-open :
      (n : ℕ)
      → (available_read s.ring == 0) ≡ true
      → s.ring.write_end ≡ some (suc n)
      → read_round want s ≡ done (suspended s)
  unfolding read_round all_write_ends_closed
  round-open n z w = ground (arith, z, w)

  round-bytes :
      (available_read s.ring == 0) ≡ false
      → read_round want s ≡ done (read_for want (available_read s.ring) s)
  unfolding read_round
  round-bytes nz = rw nz refl

-- A round of `read` for a call that still wants bytes, on a valid ring buffer whose write end is set:
-- it returns the count of bytes read, when it has read all that was wanted, or when the buffer is
-- empty and every write end is closed; it gives up the processor, with nothing changed, when the
-- buffer is empty and a write end is open; and it goes on to another round when it has emptied the
-- buffer, with at least one byte read. In each case the bytes already delivered, followed by those in
-- the buffer, are the same sequence as before.
pub read_round-ReadRound :
    (want : ℕ) (s : Reading)
    → IsValid s.ring
    → s.left + s.already_read ≡ want
    → s.ring.write_end ≢ none
    → ReadRound want s (read_round want s)
read_round-ReadRound want s v e w = elim (Bool-cases (available_read s.ring == 0)) [
  | inl z ↦
      let drained = contents-nil s.ring (==_eq (available_read s.ring) 0 z) in
      elim (Option-cases s.ring.write_end) [
        | inl unset ↦ absurd (w unset)
        | inr (zero, closed) ↦
            rw (round-closed want s z closed) (Read-refl s v, refl, inr (drained, closed))
        | inr (suc n, opened) ↦
            rw (round-open want s n z opened) (refl, drained, λ shut. cc (opened, shut))
      ]
  | inr nz ↦
      let some_bytes : available_read s.ring ≢ 0 = ground (arith, nz) in
      rw (round-bytes want s nz) (
        ReadRound-end want s (read_for want (available_read s.ring) s) some_bytes (
          read_for-end want (available_read s.ring) s v (omega arith) e
            (λ z. absurd (some_bytes z))))
]
