-- ===== src/Log/Transport.antt =====
-- components/src/log/transport.rs and server.rs: log messages over a pipe.
pub mod Delivery
use nimloth_os.Prelude.{
  ℕ, zero, suc, ◌+◌, ◌-◌, ◌%◌, ◌^◌, Bool, true, false, Option, none, some, List, [], ◌∷◌, ◌++◌,
  length, ltb, if◌then◌else◌, Outcome, done, ◌>>=◌,
}
use nimloth_os.Log.Message.{LogMessage, u32_to_le, u32_from_le, serialize, deserialize}

pub data TransportError : Type 0 where
  write_failed read_failed not_connected : TransportError

pub data TransportResult (A : Type 0) : Type 0 where
  ok : A → TransportResult A
  err : TransportError → TransportResult A

-- The system calls act on a state `P`, which stands for the kernel. A negative result is none, and
-- `sys_read` gives the bytes that it puts into a buffer of a given length.
pub record PipeTransport (P : Type 0) : Type 0 where
  pub write_fd : Option ℕ
  pub read_fd : Option ℕ
  pub sys_write : Option (P → ℕ → List ℕ → P × Option ℕ)
  pub sys_read : Option (P → ℕ → ℕ → P × Option (List ℕ))

-- A buffer of zeros with these bytes at its front.
abbrev pub zeros : ℕ → List ℕ
zeros zero = []
zeros (suc n) = 0 ∷ zeros n

abbrev pub filled : ℕ → List ℕ → List ℕ
filled len bytes = bytes ++ zeros (len - length bytes)

abbrev pub number_of : List ℕ → ℕ
number_of [] = 0
number_of (a ∷ []) = 0
number_of (a ∷ b ∷ []) = 0
number_of (a ∷ b ∷ c ∷ []) = 0
number_of (a ∷ b ∷ c ∷ d ∷ rest) = u32_from_le a b c d

-- `Option::ok_or` for messages
abbrev pub ok_or_read_failed : Option LogMessage → TransportResult LogMessage
ok_or_read_failed none = err read_failed
ok_or_read_failed (some m) = ok m

abbrev pub written : Option ℕ → TransportResult ℕ
written none = err write_failed
written (some n) = if ltb 0 n then ok n else err write_failed

abbrev pub tried : TransportResult LogMessage → TransportResult (Option LogMessage)
tried (ok m) = ok (some m)
tried (err write_failed) = err write_failed
tried (err read_failed) = ok none
tried (err not_connected) = err not_connected

module _ {P : Type 0} where
  abbrev pub new_client : ℕ → (P → ℕ → List ℕ → P × Option ℕ) → PipeTransport P
  new_client fd call = record {
    write_fd = some fd;
    read_fd = none;
    sys_write = some call;
    sys_read = none;
  }

  abbrev pub new_server : ℕ → (P → ℕ → ℕ → P × Option (List ℕ)) → PipeTransport P
  new_server fd call = record {
    write_fd = none;
    read_fd = some fd;
    sys_write = none;
    sys_read = some call;
  }

  -- The operator `?`.
  abbrev pub and_then :
      {A B : Type 0}
      → P × TransportResult A
      → (P → A → P × TransportResult B)
      → P × TransportResult B
  and_then (p, ok a) f = f p a
  and_then (p, err e) f = (p, err e)

  unfoldable pub write_to_pipe : PipeTransport P → P → ℕ → List ℕ → P × TransportResult ℕ
  write_to_pipe t p fd bytes = elim (t.sys_write) [
    | none ↦ (p, err not_connected)
    | some call ↦ let (p', n) = call p fd bytes in (p', written n)
  ]

  -- `read_from_pipe`: the buffer afterwards; its callers do not use the number of bytes.
  unfoldable pub read_from_pipe : PipeTransport P → P → ℕ → ℕ → P × TransportResult (List ℕ)
  read_from_pipe t p fd len = elim (t.sys_read) [
    | none ↦ (p, err not_connected)
    | some call ↦
        let (p', found) = call p fd len in
        (p', elim found [ none ↦ err read_failed | some bytes ↦ ok (filled len bytes) ])
  ]

  unfoldable pub send : PipeTransport P → P → LogMessage → P × TransportResult (Unit {0})
  unfolding write_to_pipe
  send t p m = elim (t.write_fd) [
    | none ↦ (p, err not_connected)
    | some fd ↦
        let bytes = serialize m in
        and_then (write_to_pipe t p fd (u32_to_le (length bytes % 2 ^ 32)))
          λ p n. and_then (write_to_pipe t p fd bytes) λ p n. (p, ok tt)
  ]

  unfoldable pub read_frame : PipeTransport P → P → ℕ → P × TransportResult (List ℕ)
  unfolding read_from_pipe
  read_frame t p fd =
      and_then (read_from_pipe t p fd 4) λ p len_buf. read_from_pipe t p fd (number_of len_buf)

  module _ (from_utf8_lossy : List ℕ → List ℕ) where
    abbrev pub decoded : P × TransportResult (List ℕ) → Outcome (P × TransportResult LogMessage)
    decoded (p, err e) = done (p, err e)
    decoded (p, ok bytes) = deserialize from_utf8_lossy bytes >>= λ m. done (p, ok_or_read_failed m)

    unfoldable pub receive : PipeTransport P → P → Outcome (P × TransportResult LogMessage)
    unfolding read_frame
    receive t p = elim (t.read_fd) [
      | none ↦ done (p, err not_connected)
      | some fd ↦ decoded (read_frame t p fd)
    ]

    unfoldable pub try_receive :
        PipeTransport P → P → Outcome (P × TransportResult (Option LogMessage))
    unfolding receive
    try_receive t p = receive t p >>= λ r. done (r.0, tried r.1)

    -- The loop of `process_batch` and `process_messages`: the messages that it hands to
    -- `handle_message`, whose output is not modelled.
    unfoldable pub receive_batch : PipeTransport P → ℕ → P → Outcome (P × List LogMessage)
    unfolding try_receive
    receive_batch t zero p = done (p, [])
    receive_batch t (suc max_messages) p = try_receive t p >>= λ r. elim (r.1) [
      | ok found ↦ elim found [
        | some m ↦ receive_batch t max_messages r.0 >>= λ s. done (s.0, m ∷ s.1)
        | none ↦ done (r.0, [])
      ]
      | err e ↦ done (r.0, [])
    ]

    -- The kernel, the messages and their number.
    unfoldable pub process_batch :
        Bool → PipeTransport P → ℕ → P → Outcome (P × List LogMessage × ℕ)
    unfolding receive_batch
    process_batch running t max_messages p =
        if running
        then (receive_batch t max_messages p >>= λ s. done (s.0, s.1, length s.1))
        else done (p, [], 0)

    unfoldable pub process_messages : PipeTransport P → P → Outcome (P × List LogMessage)
    unfolding receive_batch
    process_messages t p = receive_batch t 10 p
