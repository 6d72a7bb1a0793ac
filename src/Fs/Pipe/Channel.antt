-- ===== src/Fs/Pipe/Channel.antt =====
-- Several readers and writers on one pipe, their rounds in any order.
use nimloth_os.Prelude.{
  ℕ, ◌+◌, ◌≡◌, ◌≢◌, refl, sym, ap, ◌∙◌, none, List, [], ◌++◌, append_assoc, length, arith, done,
}
use nimloth_os.Fs.Pipe.{
  PipeRingBuffer, new, set_write_end, available_read, Reading, Writing, Progress, returned,
  suspended, more, read_round, write_round,
}
use nimloth_os.Fs.Pipe.Queue.{IsValid, cells_from, contents}
use nimloth_os.Fs.Pipe.Transfer.{ReadRound, read_round-ReadRound}
use nimloth_os.Fs.Pipe.Feeding.{WriteRound, write_round-WriteRound}

-- The pipe, all bytes that were delivered to readers, and all that writers are still to write.
pub record Channel : Type 0 where
  pub delivered : List ℕ
  pub ring : PipeRingBuffer
  pub rest : List ℕ

abbrev pub state_of : {S : Type 0} → Progress S → S
state_of (returned _ s) = s
state_of (suspended s) = s
state_of (more s) = s

-- A reader that still wants `left` bytes makes a round; a writer makes a round of a call that
-- writes the next `length bytes` bytes; or the number of references to the write end changes.
pub data Step (c : Channel) : Channel → Type 0 where
  reads :
      {r : Progress Reading} (left already : ℕ)
      → c.ring.write_end ≢ none
      → read_round
          (left + already)
          (record { ring = c.ring; left = left; already_read = already; out = c.delivered })
        ≡ done r
      → Step c (record { delivered = (state_of r).out; ring = (state_of r).ring; rest = c.rest })
  writes :
      {r : Progress Writing} (already : ℕ) (bytes later : List ℕ)
      → c.rest ≡ bytes ++ later
      → write_round
          (length bytes + already)
          (record { ring = c.ring; rest = bytes; already_write = already })
        ≡ r
      → Step c (record {
        delivered = c.delivered;
        ring = (state_of r).ring;
        rest = (state_of r).rest ++ later;
      })
  refers : (strong : ℕ) → Step c (record c { ring = set_write_end c.ring strong })

pub data Reach (c : Channel) : Channel → Type 0 where
  here : Reach c c
  next : {d e : Channel} → Reach c d → Step d e → Reach c e

abbrev pub traffic : Channel → List ℕ
traffic c = c.delivered ++ (contents c.ring ++ c.rest)

read-keeps :
    (want : ℕ) (s : Reading) (r : Progress Reading)
    → IsValid s.ring
    → ReadRound want s (done r)
    → IsValid (state_of r).ring
      × ((state_of r).out ++ contents (state_of r).ring ≡ s.out ++ contents s.ring)
read-keeps want s (returned k t) v (a, _, _) = (a.valid, a.bytes)
read-keeps want s (suspended t) v (e, _, _) = rw e (v, refl)
read-keeps want s (more t) v (a, _, _, _) = (a.valid, a.bytes)

write-keeps :
    (s : Writing) (r : Progress Writing)
    → IsValid s.ring
    → WriteRound s r
    → IsValid (state_of r).ring
      × (contents (state_of r).ring ++ (state_of r).rest ≡ contents s.ring ++ s.rest)
write-keeps s (returned k t) v (a, _, _) = (a.valid, a.bytes)
write-keeps s (suspended t) v (e, _) = rw e (v, refl)
write-keeps s (more t) v (a, _, _) = (a.valid, a.bytes)

Step-keeps : {c d : Channel} → Step c d → IsValid c.ring → IsValid d.ring × (traffic d ≡ traffic c)
Step-keeps {c} (reads {r} left already w e) v =
    let s : Reading = record {
      ring = c.ring;
      left = left;
      already_read = already;
      out = c.delivered;
    } in
    let (v', kept) =
      read-keeps (left + already) s r v
        (rw e at (read_round-ReadRound (left + already) s v refl w)) in
    (
      v',
      sym (append_assoc (state_of r).out (contents (state_of r).ring) c.rest)
          ∙ ap (λ (l : List ℕ). l ++ c.rest) kept
          ∙ append_assoc c.delivered (contents c.ring) c.rest,
    )
Step-keeps {c} (writes {r} already bytes later split e) v =
    let s : Writing = record { ring = c.ring; rest = bytes; already_write = already } in
    let (v', kept) =
      write-keeps s r v (rw e at (write_round-WriteRound (length bytes + already) s v refl)) in
    (
      v',
      ap (λ (l : List ℕ). c.delivered ++ l)
          (sym (append_assoc (contents (state_of r).ring) (state_of r).rest later)
            ∙ ap (λ (l : List ℕ). l ++ later) kept
            ∙ append_assoc (contents c.ring) bytes later
            ∙ ap (λ (l : List ℕ). contents c.ring ++ l) (sym split)),
    )
Step-keeps {c} (refers strong) v =
    unfold set_write_end available_read in
    (record { cells = v.cells; head_in = v.head_in; tail_in = v.tail_in; agrees = v.agrees }, refl)

Reach-keeps :
    {c d : Channel} → Reach c d → IsValid c.ring → IsValid d.ring × (traffic d ≡ traffic c)
Reach-keeps here v = (v, refl)
Reach-keeps (next r st) v =
    let (v1, same1) = Reach-keeps r v in let (v2, same2) = Step-keeps st v1 in (v2, same2 ∙ same1)

abbrev pub opened : List ℕ → Channel
opened source = record { delivered = []; ring = set_write_end new 1; rest = source }

-- Whatever the readers and writers of a pipe do, in whatever order their rounds come: the bytes that
-- readers have received, those in the buffer, and those still to be written are, one after the other,
-- exactly the bytes that the writers set out to write.
pub fifo : (source : List ℕ) {c : Channel} → Reach (opened source) c → traffic c ≡ source
unfolding set_write_end available_read cells_from
fifo source r = (Reach-keeps r (omega arith)).1
