-- ===== src/Tests/Signalling.antt =====
-- Signals.
use nimloth_os.Mm.Pte
use nimloth_os.Prelude.{◌≡◌, refl, true, false, none, [], ◌∷◌, arith, ◌==◌, ◌||◌, if◌then◌else◌}
use nimloth_os.Process.Signal.{
  Signals, TrapContext, default_action, check_pending_signals, handle_round, Memory,
}
use nimloth_os.Process.Signal.Delivery.{deliverable}
use nimloth_os.Process.Signal.Starving.{Stuck, send_all, frozen_for_ever}
use nimloth_os.Process.Signal.Handlers.{Returns, sys_sigreturn-check}
use nimloth_os.Process.Signal.Delivery.{Checked, check_pending_signals-Checked}

abbrev user_code : TrapContext
user_code = record { x = λ i. i; sepc = 4096 }

abbrev idle : Signals
idle = record {
  signals = λ _. false;
  signal_mask = λ _. false;
  handling_sig = none;
  signal_actions = λ _. default_action;
  killed = false;
  frozen = false;
  trap_ctx = user_code;
  trap_ctx_backup = none;
}

-- SIGHUP (1) and SIGUSR1 (10) are pending.
abbrev pending : Signals
pending = record idle {
  signals = λ i. (i == 1) || (i == 10);
  signal_actions = λ i. record { handler = if i == 10 then 8192 else 0; mask = λ _. false };
}

check_pending_signals-Checked_example : Checked pending (check_pending_signals pending)
check_pending_signals-Checked_example = check_pending_signals-Checked pending

sys_sigreturn-check_example : Returns pending (check_pending_signals pending) user_code
sys_sigreturn-check_example = sys_sigreturn-check pending user_code refl

-- SIGHUP is pending without a handler in a process that SIGSTOP froze.
abbrev stopped : Signals
stopped = record idle { frozen = true; signals = λ i. i == 1 }

stopped-Stuck : Stuck 1 stopped
unfolding deliverable
stopped-Stuck = record {
  frozen = refl;
  alive = refl;
  range = omega arith;
  lowest = λ i h. ground arith;
  pending = refl;
  user = refl;
  no_handler = refl;
}

frozen_for_ever_example :
    handle_round (send_all stopped (18 ∷ 9 ∷ [])) ≡ (send_all stopped (18 ∷ 9 ∷ []), true)
frozen_for_ever_example = frozen_for_ever (18 ∷ 9 ∷ []) stopped 1 stopped-Stuck (omega arith)

-- The new action is at the bytes 64 of page 5, which is frame 77, and the old one goes behind it.
abbrev user_memory : Memory
user_memory k = if k == 315457 then 32 else 0
