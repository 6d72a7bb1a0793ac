-- ===== src/Tests/Files.antt =====
-- File descriptors and log messages.
use nimloth_os.Prelude.{
  ℕ, ◌^◌, ◌≡◌, ◌≢◌, ◌<◌, refl, Option, none, some, List, [], ◌∷◌, ◌++◌, ◌==◌, if◌then◌else◌, arith,
  done, true, length, take, drop, ap, take-length_append, drop-length_append,
}
use nimloth_os.Fs.Descriptors.{file_at, sys_close, sys_dup}
use nimloth_os.Fs.Descriptors.Lowest.{sys_dup-sys_close}
use nimloth_os.Log.Message.{LogMessage, warn, new, serialize, deserialize}
use nimloth_os.Log.Message.Encoding.{deserialize-serialize}
use nimloth_os.Log.Message.Bounds.{Total, deserialize-Total}
use nimloth_os.Log.Transport.{new_server, process_batch}
use nimloth_os.Log.Transport.Delivery.{IsWriter, IsReader, IsSendable, sent, process_batch-sent}

-- Descriptors 0, 1 and 3 are open.
abbrev three_open : List (Option ℕ)
three_open = some 100 ∷ some 101 ∷ none ∷ some 103 ∷ []

below_one : (i : ℕ) → i < 1 → file_at three_open i ≢ none
below_one i h = let e : i ≡ 0 = omega (arith, h) in rw e λ q. cc q

sys_dup-sys_close_example :
    (table' table'' : List (Option ℕ)) × (sys_close three_open 1 ≡ (some 0, table'))
    × (sys_dup table' 3 ≡ (some 1, table''))
    × ((i : ℕ) → file_at table'' i ≡ (if 1 == i then some 103 else file_at three_open i))
sys_dup-sys_close_example =
    sys_dup-sys_close three_open 1 3 103 below_one (λ q. cc q) refl (omega arith)

abbrev entry_of_log : LogMessage
entry_of_log = record {
  level = warn;
  pid = 70000;
  cpu_id = 0;
  timestamp = 2 ^ 31;
  module_name = 109 ∷ 109 ∷ [];
  message = 111 ∷ 107 ∷ 33 ∷ [];
}

deserialize-serialize_example :
    deserialize (λ t. t) (serialize entry_of_log ++ (9 ∷ [])) ≡ done (some entry_of_log)
deserialize-serialize_example =
    deserialize-serialize (λ t. t) entry_of_log (9 ∷ []) (unfold new in refl) (omega arith)
      (omega arith) refl refl

deserialize-Total_example : Total (deserialize (λ t. t) (2 ∷ 0 ∷ 0 ∷ []))
deserialize-Total_example = deserialize-Total (λ t. t) (2 ∷ 0 ∷ 0 ∷ [])

-- The two ends of a pipe: what has been written so far, and what is still to be read.
abbrev write_bytes : List ℕ → ℕ → List ℕ → List ℕ × Option ℕ
write_bytes so_far fd bytes = (so_far ++ bytes, some (length bytes))

abbrev read_bytes : List ℕ → ℕ → ℕ → List ℕ × Option (List ℕ)
read_bytes to_come fd len = (drop len to_come, some (take len to_come))

abbrev all_bytes : List ℕ → List ℕ
all_bytes bytes = bytes

write_bytes-IsWriter : IsWriter all_bytes write_bytes
write_bytes-IsWriter = record { writes = λ w fd bytes. refl; appends = λ w fd bytes. refl }

read_bytes-IsReader : IsReader all_bytes read_bytes
read_bytes-IsReader = record {
  reads = λ r fd bytes rest h. rw h (ap some (take-length_append bytes rest));
  consumes = λ r fd bytes rest h. rw h (drop-length_append bytes rest);
}

entry_of_log-IsSendable : IsSendable (λ t. t) entry_of_log
entry_of_log-IsSendable = record {
  accepted = unfold new in refl;
  pid_fits = omega arith;
  timestamp_fits = omega arith;
  module_utf8 = refl;
  message_utf8 = refl;
}

abbrev two_logged : List LogMessage
two_logged = entry_of_log ∷ entry_of_log ∷ []

process_batch-sent_example :
    (r' : List ℕ) × (process_batch
        (λ t. t)
        true
        (new_server 0 read_bytes)
        2
        (sent write_bytes 1 [] two_logged)
      ≡ done (r', two_logged, 2))
    × (r' ≡ [])
process_batch-sent_example =
    process_batch-sent all_bytes all_bytes write_bytes read_bytes (λ t. t) write_bytes-IsWriter
      read_bytes-IsReader 1 0 [] (sent write_bytes 1 [] two_logged) two_logged
      (entry_of_log-IsSendable, (entry_of_log-IsSendable, tt)) refl
