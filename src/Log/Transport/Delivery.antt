-- ===== src/Log/Transport/Delivery.antt =====
-- Log messages from a client of the log service to its server.
use nimloth_os.Prelude.{
  ℕ, ◌+◌, ◌-◌, ◌%◌, ◌^◌, ◌<◌, ◌≡◌, refl, ap, sym, ◌∙◌, append_assoc, append-nil, true, Option, some,
  List, [], ◌∷◌, ◌++◌, length, length-append, arith, ltb, done,
}
use nimloth_os.Log.Message.{LogMessage, u32_to_le, serialize, deserialize, new}
use nimloth_os.Log.Message.Encoding.{deserialize-serialize, new-bounds}
use nimloth_os.Log.Transport.{
  TransportResult, ok, new_client, new_server, filled, number_of, and_then, decoded, write_to_pipe,
  read_from_pipe, send, read_frame, receive, try_receive, receive_batch, process_batch,
}

-- The writing end of a pipe, with the bytes that its calls have taken so far: a call returns when the
-- reader has made room for all its bytes.
pub record IsWriter {W : Type 0} (taken : W → List ℕ) (sys_write : W → ℕ → List ℕ → W × Option ℕ)
    : Type 0 where
  pub writes : (w : W) (fd : ℕ) (bytes : List ℕ) → (sys_write w fd bytes).1 ≡ some (length bytes)
  pub appends :
      (w : W) (fd : ℕ) (bytes : List ℕ) → taken (sys_write w fd bytes).0 ≡ taken w ++ bytes

-- The reading end, with the bytes that are still to come from the writers: a call returns when it has
-- as many bytes as it was asked for, if that many come, and they are the next ones.
pub record IsReader {R : Type 0} (coming : R → List ℕ) (sys_read : R → ℕ → ℕ → R × Option (List ℕ))
    : Type 0 where
  pub reads :
      (r : R) (fd : ℕ) (bytes rest : List ℕ)
      → coming r ≡ bytes ++ rest
      → (sys_read r fd (length bytes)).1 ≡ some bytes
  pub consumes :
      (r : R) (fd : ℕ) (bytes rest : List ℕ)
      → coming r ≡ bytes ++ rest
      → coming (sys_read r fd (length bytes)).0 ≡ rest

-- A message that `new` accepts, with numbers that fit their fields and texts in UTF-8.
pub record IsSendable (from_utf8_lossy : List ℕ → List ℕ) (m : LogMessage) : Type 0 where
  pub accepted : new m.level m.pid m.cpu_id m.timestamp m.module_name m.message ≡ some m
  pub pid_fits : m.pid < 2 ^ 32
  pub timestamp_fits : m.timestamp < 2 ^ 32
  pub module_utf8 : from_utf8_lossy m.module_name ≡ m.module_name
  pub message_utf8 : from_utf8_lossy m.message ≡ m.message

abbrev pub AllSendable : (List ℕ → List ℕ) → List LogMessage → Type 0
AllSendable from_utf8_lossy [] = Unit {0}
AllSendable from_utf8_lossy (m ∷ ms) = IsSendable from_utf8_lossy m × AllSendable from_utf8_lossy ms

abbrev pub frame : LogMessage → List ℕ
frame m = u32_to_le (length (serialize m) % 2 ^ 32) ++ serialize m

abbrev pub frames : List LogMessage → List ℕ
frames [] = []
frames (m ∷ ms) = frame m ++ frames ms

length-serialize :
    (m : LogMessage) → length (serialize m) ≡ 13 + (length m.module_name + length m.message)
unfolding serialize
length-serialize m = omega (arith, length-append m.module_name m.message)

filled_full : (bytes : List ℕ) → filled (length bytes) bytes ≡ bytes
filled_full bytes = let z : length bytes - length bytes ≡ 0 = omega arith in rw z (append-nil bytes)

number_of-u32_to_le : (n : ℕ) → n < 2 ^ 32 → number_of (u32_to_le n) ≡ n
number_of-u32_to_le n h = omega (arith, h)

append_cancel : (xs ys zs : List ℕ) → xs ++ ys ≡ xs ++ zs → ys ≡ zs
append_cancel [] ys zs h = h
append_cancel (x ∷ xs) ys zs h = append_cancel xs ys zs (cc h)

module _ {W : Type 0} (sys_write : W → ℕ → List ℕ → W × Option ℕ) where
  -- The messages that a client sends, one after the other.
  abbrev pub sent : ℕ → W → List LogMessage → W
  sent fd p [] = p
  sent fd p (m ∷ ms) = sent fd (send (new_client fd sys_write) p m).0 ms

module _ {W : Type 0} (taken : W → List ℕ) (sys_write : W → ℕ → List ℕ → W × Option ℕ)
    (writer : IsWriter taken sys_write) where
  write_to_pipe_lem :
      (p : W) (fd : ℕ) (bytes : List ℕ)
      → 0 < length bytes
      → write_to_pipe (new_client fd sys_write) p fd bytes
        ≡ ((sys_write p fd bytes).0, ok (length bytes))
  unfolding write_to_pipe
  write_to_pipe_lem p fd bytes h =
      let c : ltb 0 (length bytes) ≡ true = ground (arith, h) in
      rw (writer.writes p fd bytes, c) refl

  -- The pipe after a message was sent.
  send_lem :
      (p : W) (fd : ℕ) (m : LogMessage)
      → (p' : W) × (send (new_client fd sys_write) p m ≡ (p', ok tt))
        × (taken p' ≡ taken p ++ frame m)
  unfolding send
  send_lem p fd m =
      let len_bytes = u32_to_le (length (serialize m) % 2 ^ 32) in
      let p1 = (sys_write p fd len_bytes).0 in
      let some_bytes : 0 < length (serialize m) = omega (arith, length-serialize m) in
      (
        (sys_write p1 fd (serialize m)).0,
        rw
            (
              write_to_pipe_lem p fd len_bytes (omega arith),
              write_to_pipe_lem p1 fd (serialize m) some_bytes,
            )
            refl,
        writer.appends p1 fd (serialize m)
            ∙ ap (λ c. c ++ serialize m) (writer.appends p fd len_bytes)
            ∙ append_assoc (taken p) len_bytes (serialize m),
      )

  taken-sent :
      (fd : ℕ) (p : W) (ms : List LogMessage)
      → taken (sent sys_write fd p ms) ≡ taken p ++ frames ms
  taken-sent fd p [] = sym (append-nil (taken p))
  taken-sent fd p (m ∷ ms) =
      let (p', e, c) = send_lem p fd m in
      taken-sent fd (send (new_client fd sys_write) p m).0 ms
      ∙ ap (λ (r : W × TransportResult (Unit {0})). taken r.0 ++ frames ms) e
      ∙ ap (λ b. b ++ frames ms) c
      ∙ append_assoc (taken p) (frame m) (frames ms)

module _ {R : Type 0} (coming : R → List ℕ) (sys_read : R → ℕ → ℕ → R × Option (List ℕ))
    (reader : IsReader coming sys_read) where
  read_from_pipe_lem :
      (p : R) (fd : ℕ) (bytes rest : List ℕ)
      → coming p ≡ bytes ++ rest
      → read_from_pipe (new_server fd sys_read) p fd (length bytes)
        ≡ ((sys_read p fd (length bytes)).0, ok bytes)
  unfolding read_from_pipe
  read_from_pipe_lem p fd bytes rest h = rw (reader.reads p fd bytes rest h, filled_full bytes) refl

  module _ (from_utf8_lossy : List ℕ → List ℕ) where
    receive_lem :
        (p : R) (fd : ℕ) (m : LogMessage) (rest : List ℕ)
        → IsSendable from_utf8_lossy m
        → coming p ≡ frame m ++ rest
        → (p' : R) × (receive from_utf8_lossy (new_server fd sys_read) p ≡ done (p', ok m))
          × (coming p' ≡ rest)
    unfolding receive read_frame
    receive_lem p fd m rest s h =
        let bytes = serialize m in
        let len_bytes = u32_to_le (length bytes % 2 ^ 32) in
        let p1 = (sys_read p fd 4).0 in
        let p2 = (sys_read p1 fd (length bytes)).0 in
        let h1 : coming p ≡ len_bytes ++ (bytes ++ rest) = h ∙ append_assoc len_bytes bytes rest in
        let c1 : coming p1 ≡ bytes ++ rest = reader.consumes p fd len_bytes (bytes ++ rest) h1 in
        let (bm, bs) = new-bounds m (s.accepted) in
        let small : length bytes < 2 ^ 32 = omega (arith, length-serialize m, bm, bs) in
        let fits : length bytes % 2 ^ 32 ≡ length bytes = omega (arith, small) in
        let len : number_of len_bytes ≡ length bytes =
          number_of-u32_to_le (length bytes % 2 ^ 32) (omega arith) ∙ fits in
        let r1 : read_from_pipe (new_server fd sys_read) p fd 4 ≡ (p1, ok len_bytes) =
          read_from_pipe_lem p fd len_bytes (bytes ++ rest) h1 in
        let r2 : read_from_pipe (new_server fd sys_read) p1 fd (number_of len_bytes)
            ≡ (p2, ok bytes) =
          ap (λ k. read_from_pipe (new_server fd sys_read) p1 fd k) len
          ∙ read_from_pipe_lem p1 fd bytes rest c1 in
        let d : deserialize from_utf8_lossy bytes ≡ done (some m) = rw (append-nil bytes) at (
          deserialize-serialize from_utf8_lossy m [] (s.accepted) (s.pid_fits) (s.timestamp_fits)
            (s.module_utf8) (s.message_utf8)) in
        let got : read_frame (new_server fd sys_read) p fd ≡ (p2, ok bytes) =
          ap
            (λ (r : R × TransportResult (List ℕ)).
              and_then r
                (λ p len_buf. read_from_pipe (new_server fd sys_read) p fd (number_of len_buf)))
            r1
          ∙ r2 in
        let read : receive from_utf8_lossy (new_server fd sys_read) p ≡ done (p2, ok m) =
          ap (λ (r : R × TransportResult (List ℕ)). decoded from_utf8_lossy r) got ∙ rw d refl in
        (p2, read, reader.consumes p1 fd bytes rest c1)

    batch_lem :
        (fd : ℕ) (p : R) (ms : List LogMessage) (rest : List ℕ)
        → AllSendable from_utf8_lossy ms
        → coming p ≡ frames ms ++ rest
        → (p' : R) × (receive_batch from_utf8_lossy (new_server fd sys_read) (length ms) p
            ≡ done (p', ms))
          × (coming p' ≡ rest)
    unfolding receive_batch try_receive
    batch_lem fd p [] rest s h = (p, refl, h)
    batch_lem fd p (m ∷ ms) rest (s, all) h =
        let (p1, r, c1) =
          receive_lem p fd m (frames ms ++ rest) s (h ∙ append_assoc (frame m) (frames ms) rest) in
        let (p2, b, c2) = batch_lem fd p1 ms rest all c1 in (p2, rw (r, b) refl, c2)

module _ {W R : Type 0} (taken : W → List ℕ) (coming : R → List ℕ)
    (sys_write : W → ℕ → List ℕ → W × Option ℕ) (sys_read : R → ℕ → ℕ → R × Option (List ℕ))
    (from_utf8_lossy : List ℕ → List ℕ) where
  -- A running server whose pipe brings it the bytes that the calls of a client have taken, in their
  -- order, receives the messages that this client has sent, in their order and without a change, and
  -- no byte more. This is for any list of messages that `new` accepts, whose numbers fit their fields
  -- and whose texts are UTF-8. A call to write returns when all its bytes are taken, and a call to read
  -- when it has all bytes that it asks for; how the two ends take turns does not matter.
  pub process_batch-sent :
      IsWriter taken sys_write
      → IsReader coming sys_read
      → (write_fd read_fd : ℕ) (w : W) (r : R) (ms : List LogMessage)
      → AllSendable from_utf8_lossy ms
      → taken (sent sys_write write_fd w ms) ≡ taken w ++ coming r
      → (r' : R) × (process_batch from_utf8_lossy true (new_server read_fd sys_read) (length ms) r
          ≡ done (r', ms, length ms))
        × (coming r' ≡ [])
  unfolding process_batch
  process_batch-sent writer reader write_fd read_fd w r ms all h =
      let sent_bytes = taken-sent taken sys_write writer write_fd w ms in
      let start : coming r ≡ frames ms =
        append_cancel (taken w) (coming r) (frames ms) (sym h ∙ sent_bytes) in
      let (r', run, c) =
        batch_lem coming sys_read reader from_utf8_lossy read_fd r ms [] all
          (start ∙ sym (append-nil (frames ms))) in
      (r', rw run refl, c)
