-- ===== src/Log/Client.antt =====
-- components/src/log/client.rs: the client of the log service. The pid and the CPU are read when the
-- client is made, the time stamp when a message is logged.
use nimloth_os.Prelude.{ℕ, Option, none, some, List}
use nimloth_os.Log.Message.{LogLevel, new}
use nimloth_os.Log.Transport.{PipeTransport, TransportResult, ok, err, new_client, send}

pub data LogError : Type 0 where
  transport_error not_initialized message_too_long : LogError

pub data LogResult (A : Type 0) : Type 0 where
  accepted : A → LogResult A
  refused : LogError → LogResult A

pub record LogClient (P : Type 0) : Type 0 where
  pub transport : PipeTransport P
  pub pid : ℕ
  pub cpu_id : ℕ

module _ {P : Type 0} where
  abbrev pub connect_with_syscalls :
      ℕ → (P → ℕ → List ℕ → P × Option ℕ) → ℕ → ℕ → LogResult (LogClient P)
  connect_with_syscalls write_fd sys_write pid cpu_id =
      accepted (record { transport = new_client write_fd sys_write; pid = pid; cpu_id = cpu_id })

  -- `send` with `map_err`
  abbrev pub reported : P × TransportResult (Unit {0}) → P × LogResult (Unit {0})
  reported (p, ok u) = (p, accepted u)
  reported (p, err e) = (p, refused transport_error)

  unfoldable pub log : LogClient P → ℕ → P → LogLevel → List ℕ → List ℕ → P × LogResult (Unit {0})
  unfolding new send
  log c timestamp p level module_name message =
      elim (new level c.pid c.cpu_id timestamp module_name message) [
        | none ↦ (p, refused message_too_long)
        | some m ↦ reported (send c.transport p m)
      ]
