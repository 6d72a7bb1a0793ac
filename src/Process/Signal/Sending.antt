-- ===== src/Process/Signal/Sending.antt =====
-- From `sys_sigaction` through `sys_kill` to the handler.
use nimloth_os.Prelude.{
  ℕ, ◌+◌, ◌^◌, ◌≡◌, ◌≢◌, ◌≤◌, ◌<◌, ◌⊎◌, false, none, ◌==◌, if◌then◌else◌, done,
}
use nimloth_os.Mm.PageTable.{PageTable}
use nimloth_os.Mm.UserMemory.{translated_refmut}
use nimloth_os.Process.Signal.{
  Signals, SignalAction, Memory, read_action, by_kernel, with_signal, max_sig,
}
use nimloth_os.Process.Signal.Delivery.{deliverable}

abbrev with_action : Signals → ℕ → SignalAction → Signals
with_action p signum action = record p {
  signal_actions = λ i. if i == signum then action else p.signal_actions i;
}

abbrev sent : Signals → ℕ → SignalAction → Signals
sent p signum action = record p {
  signal_actions = λ i. if i == signum then action else p.signal_actions i;
  signals = with_signal p.signals signum;
}

Apart : ℕ → ℕ → Type 0
Apart a b = (a + 12 ≤ b) ⊎ (b + 12 ≤ a)

-- A process that runs no handler, with nothing lower to deliver than the signal `signum`, which is for
-- users, not masked and not pending; the pointers are translated, to actions that do not overlap, and
-- the new action has a handler.
pub record Ready (t : PageTable) (memory : Memory) (p : Signals) (signum new old new_pa old_pa : ℕ)
    : Type 0 where
  pub small : signum ≤ max_sig
  pub user : by_kernel signum ≡ false
  pub new_given : new ≢ 0
  pub old_given : old ≢ 0
  pub new_mapped : translated_refmut t new ≡ done new_pa
  pub old_mapped : translated_refmut t old ≡ done old_pa
  pub apart : (new_pa + 12 ≤ old_pa) ⊎ (old_pa + 12 ≤ new_pa)
  pub has_handler : (read_action memory new_pa).handler ≢ 0
  pub no_handler_runs : p.handling_sig ≡ none
  pub old_fits : (p.signal_actions signum).handler < 2 ^ 64
  pub unmasked : p.signal_mask signum ≡ false
  pub free : p.signals signum ≡ false
  pub none_below : (i : ℕ) → i < signum → deliverable p i ≡ false
