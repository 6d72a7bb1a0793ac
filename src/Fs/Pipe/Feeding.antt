-- ===== src/Fs/Pipe/Feeding.antt =====
-- What the loop of `write` moves, one round until the call returns or gives up the processor.
use nimloth_os.Prelude.{
  ℕ, zero, suc, ◌+◌, ◌≤◌, ◌<◌, ◌≡◌, ◌≢◌, refl, sym, ap, ◌∙◌, inl, inr, Bool-cases, List, [], ◌∷◌,
  ◌++◌, append_assoc, arith, ◌==◌, ==_eq, length,
}
use nimloth_os.Fs.Pipe.{
  ring_buffer_size, write_byte, available_write, Writing, Progress, returned, suspended, more,
  put_byte, write_for, write_round,
}
use nimloth_os.Fs.Pipe.Queue.{IsValid, contents, ring_is_queue, available_sum, write-available}

-- `t` is reached from `s` by writing: the queued bytes and those still to be written are the same
-- sequence as before.
pub record Wrote (s t : Writing) : Type 0 where
  pub valid : IsValid t.ring
  pub bytes : contents t.ring ++ t.rest ≡ contents s.ring ++ s.rest
  pub counted : length t.rest + t.already_write ≡ length s.rest + s.already_write

Wrote-refl : (s : Writing) → IsValid s.ring → Wrote s s
Wrote-refl s v = record { valid = v; bytes = refl; counted = refl }

Wrote-trans : {s t u : Writing} → Wrote s t → Wrote t u → Wrote s u
Wrote-trans a b = record {
  valid = b.valid;
  bytes = b.bytes ∙ a.bytes;
  counted = b.counted ∙ a.counted;
}

put_byte-Wrote :
    (s : Writing) (byte : ℕ) (bytes : List ℕ)
    → IsValid s.ring
    → available_write s.ring ≢ 0
    → s.rest ≡ byte ∷ bytes
    → Wrote s (put_byte s byte bytes)
put_byte-Wrote s byte bytes v h e =
    let (_, _, _, put) = ring_is_queue s.ring byte v in
    record {
      valid = (put h).1;
      bytes =
          ap (λ (l : List ℕ). l ++ bytes) (put h).0
          ∙ append_assoc (contents s.ring) (byte ∷ []) bytes
          ∙ ap (λ (l : List ℕ). contents s.ring ++ l) (sym e);
      counted = omega (arith, ap length e);
    }

-- How `write_for` ends after at most n bytes.
abbrev WriteEnd : ℕ → Writing → Progress Writing → Type 0
WriteEnd n s (returned k t) = Wrote s t × (k ≡ t.already_write) × (t.rest ≡ [])
WriteEnd n s (suspended t) = ⊥
WriteEnd n s (more t) =
    Wrote s t × (available_write t.ring + n ≡ available_write s.ring) × (0 < length t.rest)

WriteEnd-after :
    (n : ℕ) {s t : Writing} (r : Progress Writing)
    → Wrote s t
    → available_write t.ring + 1 ≡ available_write s.ring
    → WriteEnd n t r
    → WriteEnd (suc n) s r
WriteEnd-after n (returned k u) a h (b, e, f) = (Wrote-trans a b, e, f)
WriteEnd-after n (suspended u) a h b = b
WriteEnd-after n (more u) a h (b, e, f) = (Wrote-trans a b, omega arith, f)

length-zero : (l : List ℕ) → length l ≡ 0 → l ≡ []
length-zero [] h = refl
length-zero (x ∷ l) h = absurd (omega arith)

write_for-end :
    (want n : ℕ) (s : Writing) (bytes : List ℕ)
    → IsValid s.ring
    → s.rest ≡ bytes
    → n ≤ available_write s.ring
    → length bytes + s.already_write ≡ want
    → (n ≡ 0 → 0 < length bytes)
    → WriteEnd n s (write_for want n s bytes)
unfolding write_for
write_for-end want zero s bytes v r h e l =
    (Wrote-refl s v, omega arith, omega (arith, l refl, ap length r))
write_for-end want (suc n) s [] v r h e l = (Wrote-refl s v, refl, r)
write_for-end want (suc n) s (byte ∷ bytes) v r h e l =
    let room : available_write s.ring ≢ 0 = omega arith in
    let step = put_byte-Wrote s byte bytes v room r in
    let fewer = write-available s.ring byte v room in
    let sums = available_sum s.ring v in
    let sums' = available_sum (write_byte s.ring byte) step.valid in
    elim (Bool-cases (s.already_write + 1 == want)) [
      | inl full ↦ rw full (
        step,
        sym (==_eq (s.already_write + 1) want full),
        length-zero bytes (omega (arith, ==_eq (s.already_write + 1) want full)),
      )
      | inr on ↦ rw on (
          WriteEnd-after n (write_for want n (put_byte s byte bytes) bytes) step
            (omega (arith, fewer, sums, sums'))
            (write_for-end want n (put_byte s byte bytes) bytes step.valid refl
              (omega (arith, fewer, sums, sums')) (omega arith) (ground (arith, on))))
    ]

-- How a round of `write` may end.
abbrev pub WriteRound : Writing → Progress Writing → Type 0
WriteRound s (returned k t) = Wrote s t × (k ≡ t.already_write) × (t.rest ≡ [])
WriteRound s (suspended t) = (t ≡ s) × (length (contents t.ring) ≡ ring_buffer_size)
WriteRound s (more t) =
    Wrote s t × (length (contents t.ring) ≡ ring_buffer_size) × (0 < length t.rest)

WriteRound-end :
    (s : Writing) (r : Progress Writing) → WriteEnd (available_write s.ring) s r → WriteRound s r
WriteRound-end s (returned k t) b = b
WriteRound-end s (suspended t) b = absurd b
WriteRound-end s (more t) (a, e, l) =
    (a, omega (arith, available_sum t.ring a.valid, (ring_is_queue t.ring 0 a.valid).0), l)

-- A round of `write` for a call of `want` bytes, on a valid ring buffer: it returns the count of
-- bytes written when all are written; it gives up the processor, with nothing changed, when the
-- buffer holds 32 bytes; and it goes on to another round when it has filled the buffer and bytes are
-- left. In each case the queued bytes followed by those still to be written are the same sequence as
-- before.
pub write_round-WriteRound :
    (want : ℕ) (s : Writing)
    → IsValid s.ring
    → length s.rest + s.already_write ≡ want
    → WriteRound s (write_round want s)
unfolding write_round
write_round-WriteRound want s v e = elim (Bool-cases (available_write s.ring == 0)) [
  | inl z ↦ rw z (
    refl,
    omega (
      arith,
      ==_eq (available_write s.ring) 0 z,
      available_sum s.ring v,
      (ring_is_queue s.ring 0 v).0,
    ),
  )
  | inr nz ↦ rw nz (
      WriteRound-end s (write_for want (available_write s.ring) s s.rest) (
        write_for-end want (available_write s.ring) s s.rest v refl (omega arith) e
          (ground (arith, nz))))
]
